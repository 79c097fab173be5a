-- ===== src/Wire/Ksuid.antt =====
-- The package github.com/segmentio/ksuid, which is not part of the repository: what the code uses
-- of it, and the documented behaviour that its proofs rely on.
use fim.Base.{◌++◌, done, ℕ, ◌≡◌, length, Option, none, some, Act, ◌>>=◌, return, throw, external}
use fim.Wire.Buffer.{Bytes}
use fim.Wire.Common.RoundTrip.{read_full-front}
use fim.Wire.Common.{read_fixed_bytes}

-- `size` is len(ksuid.Nil), and `same` the comparison of two identifiers by ==.
pub record Ksuids (K : Type 0) : Type 0 where
  pub size : ℕ
  pub nil : K
  pub bytes : K → Bytes
  pub from_bytes : Bytes → Option K
  pub string : K → Bytes
  pub parse : Bytes → Option K
  pub same : Discrete K

-- An identifier is `size` bytes, which FromBytes reads back; Parse reads back its string.
pub record KsuidLaws {K : Type 0} (ks : Ksuids K) : Type 0 where
  pub length_bytes : (k : K) → length (ks.bytes k) ≡ ks.size
  pub from_bytes-bytes : (k : K) → ks.from_bytes (ks.bytes k) ≡ some k
  pub parse-string : (k : K) → ks.parse (ks.string k) ≡ some k

abbrev pub or_external : {S A : Type 0} → Option A → Act S A
or_external none = throw external
or_external (some a) = return a

-- `id, _ := ksuid.Parse(s)`: the error is dropped, and the value is then ksuid.Nil.
abbrev pub parse_or_nil : {K : Type 0} ⦃ks : Ksuids K⦄ → Bytes → K
parse_or_nil ⦃ks⦄ s = elim (ks.parse s) [ none ↦ ks.nil | some k ↦ k ]

-- DecodeKSUID of wire/message.go.
unfoldable pub decode_ksuid : {K : Type 0} ⦃ks : Ksuids K⦄ → Act Bytes K
decode_ksuid ⦃ks⦄ = do bytes ← read_fixed_bytes ks.size; or_external (ks.from_bytes bytes)

pub decode_ksuid-bytes :
    {K : Type 0} ⦃ks : Ksuids K⦄
    → KsuidLaws ks
    → (k : K) (rest : Bytes) → decode_ksuid (ks.bytes k ++ rest) ≡ done k rest
unfolding decode_ksuid read_fixed_bytes
decode_ksuid-bytes ⦃ks⦄ laws k rest =
    rw (read_full-front ks.size (ks.bytes k) rest (laws.length_bytes k))
      (rw (laws.from_bytes-bytes k))
