-- ===== src/Wire/Relay/WellFormed.antt =====
-- The packets that Decode gives, whatever bytes come.
use fim.Base.{
  ℕ, zero, suc, ◌^◌, ◌≤◌, ◌≡◌, refl, sym, ap, subst, inl, inr, Option, none, some, List, [], ◌∷◌,
  ◌++◌, arith, ◌==◌, Bool-cases, length, drop, replicate, All, length-append, length-replicate,
  length-drop, Outcome, done, fail, panic, ◌>>=◌, return, or_default,
}
use fim.Wire.Buffer.{Bytes, IsByte, read, read_full}
use fim.Wire.Ksuid.{Ksuids, KsuidLaws, or_external, decode_ksuid}
use fim.Wire.Common.{read_uint8, read_uint32, read_string, read_fixed_bytes}
use fim.Wire.Common.Typing.{
  Gives, Reads, bind-Reads, return-Reads, read_full-Reads, read-Reads, Below, IsSlice, IsShort,
  read_uint8-Reads, read_uint32-Reads, read_string-Reads,
}
use fim.Wire.Header
use fim.Wire.Header.{IsHeader}
use fim.Wire.Message
use fim.Wire.Message.{Message, decode_payload}
use fim.Wire.Message.RoundTrip.{IsFramed}
use fim.Wire.Relay.{RelayPacket, decode, decode_receivers, bytes}
use fim.Wire.Relay.RoundTrip.{IsSendable, decode-relay_bytes}

abbrev AnyValue : {A : Type 0} → A → Type 0
AnyValue a = Unit {0}

decode-IsHeader : (h : Bytes) → IsHeader h → Reads IsHeader (Header.decode h)
unfolding Header.decode
decode-IsHeader h is =
    bind-Reads (λ p. length p ≤ length h) IsHeader (read (length h)) _ (read-Reads (length h))
      λ got le.
        return-Reads IsHeader (got ++ drop (length got) h) (
          omega
            (arith, is, le, length-append got (drop (length got) h), length-drop (length got) h))

decode_payload-Reads :
    (m : Message) → IsHeader m.header → m.payload ≡ [] → Reads IsFramed (decode_payload m)
unfolding decode_payload
decode_payload-Reads m is nothing s bs = elim (Bool-cases (Header.get_payload_len m.header == 0)) [
  | inl e ↦ rw e (record { header = is; counted = ground (arith, e, nothing) }, bs)
  | inr e ↦ rw e (
      bind-Reads (λ p. length p ≡ n) IsFramed _ _ padded
        (λ p len.
          return-Reads IsFramed (record m { payload = p })
            (record { header = is; counted = sym len }))
        s bs)
]
  where
    n : ℕ
    n = Header.get_payload_len m.header

    padded :
        Reads
          (λ p. length p ≡ n)
          (read n >>= (λ got. return (got ++ drop (length got) (replicate n 0))))
    padded =
        bind-Reads (λ p. length p ≤ n) (λ p. length p ≡ n) (read n) _ (read-Reads n)
          λ got le.
            return-Reads (λ p. length p ≡ n) (got ++ drop (length got) (replicate n 0))
              (omega (
                arith,
                le,
                length-append got (drop (length got) (replicate n 0)),
                length-drop (length got) (replicate {A = ℕ} n 0),
                length-replicate {A = ℕ} n 0,
              ))

decode_message-Reads : Reads IsFramed (Message.decode Message.empty)
unfolding Message.decode
decode_message-Reads =
    bind-Reads IsHeader IsFramed (Header.decode Header.empty) _ (decode-IsHeader Header.empty refl)
      λ h is. decode_payload-Reads (record { header = h; payload = [] }) is refl

abbrev OfLength : {A : Type 0} → ℕ → List A → Type 0
OfLength n xs = length xs ≡ n

-- A packet with a payload that counts its bytes, and lengths that fit.
pub record IsWellFormed {K : Type 0} ⦃ks : Ksuids K⦄ (m : RelayPacket K) : Type 0 where
  pub message : Message
  pub sendable : IsSendable m message

module _ (K : Type 0) ⦃ks : Ksuids K⦄ where
  decode_ksuid-Reads : Reads (AnyValue {A = K}) decode_ksuid
  unfolding decode_ksuid read_fixed_bytes
  decode_ksuid-Reads =
      bind-Reads (IsSlice ks.size) AnyValue (read_full ks.size) _ (read_full-Reads ks.size)
        λ p slice. parsed (ks.from_bytes p)
    where
      parsed : (o : Option K) → Reads AnyValue (or_external {S = Bytes} o)
      parsed none s bs = bs
      parsed (some k) s bs = (tt, bs)

  decode_receiver-Reads : Reads (AnyValue {A = K}) (λ s. or_default ks.nil (decode_ksuid s))
  decode_receiver-Reads s bs = fallen (decode_ksuid s) (decode_ksuid-Reads s bs)
    where
      fallen :
          (o : Outcome Bytes K) → Gives AnyValue o → Gives (AnyValue {A = K}) (or_default ks.nil o)
      fallen (done k s) g = g
      fallen (fail e s) bs = (tt, bs)
      fallen panic g = tt

  decode_receivers-Reads : (n : ℕ) → Reads (OfLength {A = K} n) (decode_receivers n)
  unfolding decode_receivers
  decode_receivers-Reads zero = return-Reads (OfLength {A = K} 0) [] refl
  decode_receivers-Reads (suc n) =
      bind-Reads AnyValue (OfLength (suc n)) (λ s. or_default ks.nil (decode_ksuid s)) _
        decode_receiver-Reads
        λ k _.
          bind-Reads (OfLength n) (OfLength (suc n)) (decode_receivers n) _
            (decode_receivers-Reads n)
            λ rest len. return-Reads (OfLength (suc n)) (k ∷ rest) (ap suc len)

  decode-Reads : Reads (IsWellFormed {K = K}) decode
  unfolding decode
  decode-Reads = bind-Reads AnyValue IsWellFormed decode_ksuid _ decode_ksuid-Reads λ uuid _.
      bind-Reads IsShort IsWellFormed read_string _ read_string-Reads λ username short.
        bind-Reads IsByte IsWellFormed read_uint8 _ read_uint8-Reads λ device _.
          bind-Reads AnyValue IsWellFormed decode_ksuid _ decode_ksuid-Reads λ location _.
            bind-Reads (Below (2 ^ 32)) IsWellFormed read_uint32 _ read_uint32-Reads λ len below.
              bind-Reads (OfLength len) IsWellFormed (decode_receivers len) _
                (decode_receivers-Reads len)
                λ receivers counts.
                  bind-Reads IsFramed IsWellFormed (Message.decode Message.empty) _
                    decode_message-Reads
                    λ payload framed. return-Reads IsWellFormed _ (record {
                      message = payload;
                      sendable = record {
                        has_payload = refl;
                        framed = framed;
                        username_fits = short;
                        receivers_fit = omega (arith, counts, below);
                      };
                    })

  -- Whatever bytes Decode gives a packet of, the packet has a payload with a ten-byte header that counts
  -- the payload's bytes, and a username and receivers of fewer than 2 ^ 32 elements; Bytes does not
  -- panic on it, and Decode gives it again of what Bytes writes, whatever follows, if the identifiers'
  -- bytes are read back.
  pub decode-IsWellFormed :
      (s : Bytes) (m : RelayPacket K) (rest more : Bytes)
      → KsuidLaws ks
      → All IsByte s
      → decode s ≡ done m rest
      → IsWellFormed m
        × ((out : Bytes) × (bytes m ≡ some out) × (decode (out ++ more) ≡ done m more))
  decode-IsWellFormed s m rest more laws bs e =
      let (formed, _) = subst (Gives IsWellFormed) e (decode-Reads s bs) in
      (formed, decode-relay_bytes m formed.message more laws formed.sendable)
