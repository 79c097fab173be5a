-- ===== src/Wire/Header/Fields.antt =====
-- The fields of a message's header are independent, and each is read as it was set.
use fim.Base.{ℕ, ◌^◌, ◌<◌, ◌≡◌, refl, [], ◌∷◌, ◌++◌, length, arith, done, drop-all, append-nil}
use fim.Wire.Buffer.{Bytes, read-append}
use fim.Wire.Uint.{put_uint, uint}
use fim.Wire.Header.{
  IsHeader, get_pid, get_sequence, set_sequence, get_sequence_ack, set_sequence_ack,
  get_payload_len, set_payload_len, get_ack_code, decode,
}

-- Everything that a header says.
pub record Fields : Type 0 where
  pub pid : ℕ
  pub sequence : ℕ
  pub sequence_ack : ℕ
  pub payload_len : ℕ
  pub ack_code : ℕ

unfoldable pub fields : Bytes → Fields
unfolding get_pid get_sequence get_sequence_ack get_payload_len get_ack_code
fields h = record {
  pid = get_pid h;
  sequence = get_sequence h;
  sequence_ack = get_sequence_ack h;
  payload_len = get_payload_len h;
  ack_code = get_ack_code h;
}

pub fields-set_sequence :
    (h : Bytes) (v : ℕ)
    → IsHeader h
    → v < 2 ^ 16
    → (fields (set_sequence h v) ≡ record (fields h) { sequence = v }) × IsHeader (set_sequence h v)
unfolding fields set_sequence put_uint uint
fields-set_sequence (a ∷ b ∷ c ∷ d ∷ e ∷ f ∷ g ∷ i ∷ j ∷ k ∷ []) v h lt = (ground arith, refl)
fields-set_sequence _ v h lt = absurd (omega arith)

pub fields-set_sequence_ack :
    (h : Bytes) (v : ℕ)
    → IsHeader h
    → v < 2 ^ 16
    → (fields (set_sequence_ack h v) ≡ record (fields h) { sequence_ack = v })
      × IsHeader (set_sequence_ack h v)
unfolding fields set_sequence_ack put_uint uint
fields-set_sequence_ack (a ∷ b ∷ c ∷ d ∷ e ∷ f ∷ g ∷ i ∷ j ∷ k ∷ []) v h lt = (ground arith, refl)
fields-set_sequence_ack _ v h lt = absurd (omega arith)

pub fields-set_payload_len :
    (h : Bytes) (v : ℕ)
    → IsHeader h
    → v < 2 ^ 16
    → (fields (set_payload_len h v) ≡ record (fields h) { payload_len = v })
      × IsHeader (set_payload_len h v)
unfolding fields set_payload_len put_uint uint
fields-set_payload_len (a ∷ b ∷ c ∷ d ∷ e ∷ f ∷ g ∷ i ∷ j ∷ k ∷ []) v h lt = (ground arith, refl)
fields-set_payload_len _ v h lt = absurd (omega arith)

-- On a header of ten bytes, each of the three setters keeps the ten bytes, makes its own field the
-- value that it is given, a uint16, and leaves every other field as it was.
pub setters_set_one_field :
    (h : Bytes) (v : ℕ)
    → IsHeader h
    → v < 2 ^ 16
    → ((fields (set_sequence h v) ≡ record (fields h) { sequence = v })
        × IsHeader (set_sequence h v))
      × ((fields (set_sequence_ack h v) ≡ record (fields h) { sequence_ack = v })
          × IsHeader (set_sequence_ack h v))
      × ((fields (set_payload_len h v) ≡ record (fields h) { payload_len = v })
          × IsHeader (set_payload_len h v))
setters_set_one_field h v is lt = (
  fields-set_sequence h v is lt,
  fields-set_sequence_ack h v is lt,
  fields-set_payload_len h v is lt,
)

pub decode-header :
    (old h rest : Bytes) → IsHeader old → IsHeader h → decode old (h ++ rest) ≡ done h rest
unfolding decode
decode-header old h rest is_old is_h =
    rw (is_old, ← is_h)
      (rw (read-append h rest) (rw (drop-all (length h) old (omega arith), append-nil)))
