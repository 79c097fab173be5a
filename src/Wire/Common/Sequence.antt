-- ===== src/Wire/Common/Sequence.antt =====
-- wire/common.go: values that are written one after the other are read one after the other.
use fim.Base.{
  ℕ, ◌^◌, ◌<◌, ◌≡◌, ap, [], ◌∷◌, ◌++◌, append-nil, append_assoc, length, done, Act, ◌>>=◌, ◌>>◌,
  return, Writer,
}
use native.Mathlib.Nat.{mod-eq_of_lt}
use fim.Wire.Buffer.{Bytes, buffer}
use fim.Wire.Uint.{put_uint}
use fim.Wire.Common.{
  read_uint8, read_uint16, read_uint32, read_uint64, read_bytes, read_string, write_uint8,
  write_uint16, write_uint32, write_uint64, write_bytes, write_string,
}
use fim.Wire.Common.RoundTrip.{
  read_uint8-head, read_uint16-put, read_uint32-put, read_uint64-put, read_bytes-prefixed,
  read_string-prefixed,
}

-- One value of each kind.
pub record Values : Type 0 where
  pub byte : ℕ
  pub short : ℕ
  pub word : ℕ
  pub long : ℕ
  pub buf : Bytes
  pub str : Bytes

pub record InRange (v : Values) : Type 0 where
  pub short : v.short < 2 ^ 16
  pub word : v.word < 2 ^ 32
  pub long : v.long < 2 ^ 64
  pub buf : length v.buf < 2 ^ 32
  pub str : length v.str < 2 ^ 32

abbrev pub write_values : {W : Type 0} ⦃w : Writer W⦄ → Values → Act W (Unit {0})
write_values v = do
  write_uint8 v.byte
  write_uint16 v.short
  write_uint32 v.word
  write_uint64 v.long
  write_bytes v.buf
  write_string v.str

abbrev pub read_values : Act Bytes Values
read_values = do
  byte ← read_uint8
  short ← read_uint16
  word ← read_uint32
  long ← read_uint64
  buf ← read_bytes
  str ← read_string
  return (record { byte = byte; short = short; word = word; long = long; buf = buf; str = str })

abbrev values_layout : Values → Bytes → Bytes
values_layout v rest =
    v.byte
    ∷ (put_uint 2 v.short
        ++ (put_uint 4 v.word
            ++ (put_uint 8 v.long
                ++ (put_uint 4 (length v.buf)
                    ++ (v.buf ++ (put_uint 4 (length v.str) ++ (v.str ++ rest)))))))

write_values-layout :
    (v : Values) (held : Bytes)
    → InRange v
    → write_values v held ≡ done tt (held ++ values_layout v [])
unfolding write_uint8 write_uint16 write_uint32 write_uint64 write_bytes write_string
write_values-layout v held r =
    rw (mod-eq_of_lt r.buf, mod-eq_of_lt r.str) (ap (done tt) (simp (append_assoc, append-nil)))

read_values-layout :
    (v : Values) (rest : Bytes) → InRange v → read_values (values_layout v rest) ≡ done v rest
read_values-layout v rest r = rw (read_uint8-head) (
    rw (read_uint16-put v.short, r.short)
      (rw (read_uint32-put v.word, r.word)
        (rw (read_uint64-put v.long, r.long)
          (rw (read_bytes-prefixed v.buf, r.buf) (rw (read_string-prefixed v.str, r.str))))))

values_layout-append :
    (v : Values) (rest : Bytes) → values_layout v [] ++ rest ≡ values_layout v rest
values_layout-append v rest = simp (append_assoc, append-nil)

-- A byte, a uint16, a uint32, a uint64, a byte slice and a string, each within its range or of
-- fewer than 2 ^ 32 bytes: written one after the other into a buffer they are appended to what it
-- holds, and the readers, called in the same order, give them back and leave what follows.
pub read_values-write_values :
    (v : Values) (held rest : Bytes)
    → InRange v
    → (out : Bytes) × (write_values v held ≡ done tt (held ++ out))
      × (read_values (out ++ rest) ≡ done v rest)
read_values-write_values v held rest r = (
  values_layout v [],
  write_values-layout v held r,
  rw (values_layout-append v rest) (read_values-layout v rest r),
)
