-- ===== src/Wire/Header.antt =====
-- wire/message.go: Header, the ten bytes in front of every client message: the protocol in byte 0,
-- the sequence in 1 and 2, its acknowledgement in 3 and 4, the payload's length in 5 and 6, and
-- the acknowledgement code in 9.
pub mod Fields
use fim.Base.{
  ℕ, ◌-◌, ◌≡◌, List, [], ◌∷◌, ◌++◌, length, take, drop, replicate, get_or, set, Act, ◌>>=◌, return,
  Writer,
}
use fim.Wire.Buffer.{Bytes, read, write}
use fim.Wire.Uint.{uint, put_uint}

-- The zero value of [10]byte.
abbrev pub empty : Bytes
empty = replicate 10 0

abbrev pub IsHeader : Bytes → Type 0
IsHeader h = length h ≡ 10

-- The slice h[i:j], and h with the bytes from `i` on overwritten.
abbrev slice : Bytes → ℕ → ℕ → Bytes
slice h i j = take (j - i) (drop i h)

abbrev overwrite : Bytes → ℕ → ℕ → Bytes → Bytes
overwrite h i j v = take i h ++ (v ++ drop j h)

unfoldable pub get_pid : Bytes → ℕ
get_pid h = get_or h 0 0

unfoldable pub get_sequence : Bytes → ℕ
get_sequence h = uint (slice h 1 3)

unfoldable pub set_sequence : Bytes → ℕ → Bytes
set_sequence h seq = overwrite h 1 3 (put_uint 2 seq)

unfoldable pub get_sequence_ack : Bytes → ℕ
get_sequence_ack h = uint (slice h 3 5)

unfoldable pub set_sequence_ack : Bytes → ℕ → Bytes
set_sequence_ack h ack = overwrite h 3 5 (put_uint 2 ack)

unfoldable pub get_payload_len : Bytes → ℕ
get_payload_len h = uint (slice h 5 7)

unfoldable pub set_payload_len : Bytes → ℕ → Bytes
set_payload_len h len = overwrite h 5 7 (put_uint 2 len)

unfoldable pub get_ack_code : Bytes → ℕ
get_ack_code h = get_or h 9 0

-- `r.Read(h[0:])` of the old header `h`: one Read, which may bring fewer than ten bytes.
unfoldable pub decode : Bytes → Act Bytes Bytes
decode h = do got ← read (length h); return (got ++ drop (length got) h)

unfoldable pub encode : {W : Type 0} ⦃w : Writer W⦄ → Bytes → Act W (Unit {0})
encode h = write h
