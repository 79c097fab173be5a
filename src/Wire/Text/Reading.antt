-- ===== src/Wire/Text/Reading.antt =====
-- What can be read out of a header's text.
use fim.Base.{ℕ, ◌^◌, ◌<◌, ◌≢◌, Option, List, [], ◌∷◌, ◌==◌, if◌then◌else◌, All}
use Prim.Native.String.{String}
use fim.Wire.Buffer.{Bytes}
use fim.Wire.AckCode
use fim.Wire.Header
use fim.Wire.Sid.{digits_loop}
use fim.Wire.Text.{codes}

-- What stands in front of the first `c`, and what stands behind it.
abbrev pub before : ℕ → Bytes → Bytes
before c [] = []
before c (b ∷ bs) = let rest = before c bs in if b == c then [] else b ∷ rest

abbrev pub behind : ℕ → Bytes → Bytes
behind c [] = []
behind c (b ∷ bs) = let rest = behind c bs in if b == c then bs else rest

abbrev Free : ℕ → Bytes → Type 0
Free c bs = All (λ b. b ≢ c) bs

-- The names have no comma.
abbrev AreFree : ℕ → List (ℕ × String) → Type 0
AreFree c m = All (λ (e : ℕ × String). Free c (codes e.1)) m

-- The numbers of a header's text, in their order, and the text of its ack code in front of the last of
-- them; the number of the protocol stands in front of its name.
abbrev pub numbers : Bytes → List (Option ℕ) × Bytes × Option ℕ
numbers s =
    let pid = behind b':' s in
    let seq = behind b':' (behind b',' pid) in
    let ack = behind b':' (behind b',' seq) in
    let code = behind b':' (behind b',' ack) in
    let len = behind b':' (behind b',' code) in
    (
      digits_loop 0 (before b'_' (before b',' pid))
          ∷ digits_loop 0 (before b',' seq)
          ∷ digits_loop 0 (before b',' ack)
          ∷ [],
      before b',' code,
      digits_loop 0 len,
    )

-- A header whose fields fit sixteen bits.
AreSmall : Bytes → Type 0
AreSmall h =
    (Header.get_pid h < 2 ^ 16)
    × (Header.get_sequence h < 2 ^ 16)
    × (Header.get_sequence_ack h < 2 ^ 16)
    × (Header.get_ack_code h < 2 ^ 16)
    × (Header.get_payload_len h < 2 ^ 16)
