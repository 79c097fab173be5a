-- ===== src/Wire/Relay/RoundTrip.antt =====
-- A relay packet that is written into a buffer is read back.
use fim.Base.{
  ◌+◌, ◌*◌, ◌^◌, ◌<◌, ◌≡◌, refl, sym, ap, subst, ◌∙◌, some, List, [], ◌∷◌, ◌++◌, append-nil,
  append_assoc, arith, length, length-append, done,
}
use native.Mathlib.Nat.{mod-eq_of_lt}
use fim.Wire.Buffer.{Bytes, buffer}
use fim.Wire.Uint.{put_uint, length-put_uint}
use fim.Wire.Ksuid.{decode_ksuid-bytes, Ksuids, KsuidLaws}
use fim.Wire.Common.{write_string, write_bytes, write_uint8, write_uint32}
use fim.Wire.Common.RoundTrip.{read_uint8-head, read_uint32-put, read_string-prefixed}
use fim.Wire.Message.{Message}
use fim.Wire.Message.RoundTrip.{IsFramed, encode-buffer, decode-framed}
use fim.Wire.Relay.{
  RelayPacket, decode, decode_receivers, encode, encode_receivers, encode_payload, bytes,
}

module _ {K : Type 0} ⦃ks : Ksuids K⦄ where
  -- What stands in the receivers' part of a packet.
  abbrev receivers_bytes : List K → Bytes
  receivers_bytes [] = []
  receivers_bytes (r ∷ rs) = ks.bytes r ++ receivers_bytes rs

  -- The packet's bytes, in front of `rest`.
  abbrev pub layout : RelayPacket K → Message → Bytes → Bytes
  layout m payload rest =
      ks.bytes m.uuid
      ++ (put_uint 4 (length m.username)
          ++ (m.username
              ++ (m.device
                  ∷ (ks.bytes m.location
                      ++ (put_uint 4 (length m.receivers)
                          ++ (receivers_bytes m.receivers
                              ++ (payload.header ++ (payload.payload ++ rest))))))))

  -- A payload that is there and framed, and lengths that fit their four bytes.
  pub record IsSendable (m : RelayPacket K) (payload : Message) : Type 0 where
    pub has_payload : m.payload ≡ some payload
    pub framed : IsFramed payload
    pub username_fits : length m.username < 2 ^ 32
    pub receivers_fit : length m.receivers < 2 ^ 32

  encode_receivers-buffer :
      (rs : List K) (held : Bytes) → encode_receivers rs held ≡ done tt (held ++ receivers_bytes rs)
  unfolding encode_receivers
  encode_receivers-buffer [] held = rw append-nil
  encode_receivers-buffer (r ∷ rs) held =
      encode_receivers-buffer rs (held ++ ks.bytes r)
      ∙ ap (done tt) (append_assoc held (ks.bytes r) (receivers_bytes rs))

  pub encode-layout :
      (m : RelayPacket K) (payload : Message)
      → IsSendable m payload
      → encode m [] ≡ done tt (layout m payload [])
  unfolding encode write_string write_bytes write_uint8 write_uint32
  encode-layout m payload s =
      rw (s.has_payload, mod-eq_of_lt s.username_fits, mod-eq_of_lt s.receivers_fit)
        (rw encode_receivers-buffer (
          unfold encode_payload in
          rw encode-buffer (ap (done tt) (simp (append_assoc, append-nil)))))

  decode_receivers-bytes :
      KsuidLaws ks
      → (rs : List K) (rest : Bytes)
      → decode_receivers (length rs) (receivers_bytes rs ++ rest) ≡ done rs rest
  unfolding decode_receivers
  decode_receivers-bytes laws [] rest = refl
  decode_receivers-bytes laws (r ∷ rs) rest =
      rw (append_assoc, decode_ksuid-bytes laws r (receivers_bytes rs ++ rest))
        (rw (decode_receivers-bytes laws rs rest))

  decode-layout :
      (m : RelayPacket K) (payload : Message) (rest : Bytes)
      → KsuidLaws ks
      → IsSendable m payload
      → decode (layout m payload rest) ≡ done m rest
  unfolding decode
  decode-layout m payload rest laws s = rw (decode_ksuid-bytes laws m.uuid) (
      rw (read_string-prefixed m.username, s.username_fits)
        (rw (read_uint8-head) (
          rw (decode_ksuid-bytes laws m.location) (
            rw (read_uint32-put (length m.receivers), s.receivers_fit)
              (rw (decode_receivers-bytes laws m.receivers) (
                rw (decode-framed payload, s.framed)
                  (ap (λ pl. done (record m { payload = pl }) rest) (sym s.has_payload))))))))

  layout-append :
      (m : RelayPacket K) (payload : Message) (rest : Bytes)
      → layout m payload [] ++ rest ≡ layout m payload rest
  layout-append m payload rest = simp (append_assoc, append-nil)

  -- A packet whose payload is there, counts its bytes and has a ten-byte header, and whose username
  -- and list of receivers have fewer than 2 ^ 32 elements: Bytes does not panic, and Decode reads
  -- the packet back, whatever follows, if the identifiers' bytes are read back.
  pub decode-relay_bytes :
      (m : RelayPacket K) (payload : Message) (rest : Bytes)
      → KsuidLaws ks
      → IsSendable m payload
      → (out : Bytes) × (bytes m ≡ some out) × (decode (out ++ rest) ≡ done m rest)
  unfolding bytes
  decode-relay_bytes m payload rest laws s = (
    layout m payload [],
    rw (encode-layout m payload s, bytes),
    rw (layout-append m payload rest) (decode-layout m payload rest laws s),
  )

  -- A payload that is the bytes of a packet, as Bytes writes them.
  pub record Carries (payload : Bytes) (m : RelayPacket K) : Type 0 where
    pub message : Message
    pub sendable : IsSendable m message
    pub written : bytes m ≡ some payload

  pub decode-Carries :
      KsuidLaws ks
      → (payload : Bytes) (m : RelayPacket K) → Carries payload m
      → decode payload ≡ done m []
  decode-Carries laws payload m v =
      let (out, writes, reads) = decode-relay_bytes m v.message [] laws v.sendable in
      subst (λ b. decode b ≡ done m []) (append-nil out ∙ same_bytes (sym writes ∙ v.written)) reads
    where
      same_bytes : {x y : Bytes} → some x ≡ some y → x ≡ y
      same_bytes h = cc

  -- The bytes of a packet that can be sent, and how many of them there are.
  length-receivers_bytes :
      KsuidLaws ks → (rs : List K) → length (receivers_bytes rs) ≡ ks.size * length rs
  length-receivers_bytes laws [] = omega arith
  length-receivers_bytes laws (r ∷ rs) =
      length-append (ks.bytes r) (receivers_bytes rs)
      ∙ grind (arith, laws.length_bytes r, length-receivers_bytes laws rs)

  pub length-layout :
      (m : RelayPacket K) (payload : Message)
      → KsuidLaws ks
      → IsSendable m payload
      → length (layout m payload [])
        ≡ 2 * ks.size
          + length m.username
          + ks.size * length m.receivers
          + length payload.payload
          + 19
  length-layout m payload laws s =
      rw
        (
          length-append,
          length-append,
          length-append,
          length-append,
          length-append,
          length-append,
          length-append,
          length-append,
          laws.length_bytes,
          laws.length_bytes,
          length-put_uint,
          length-put_uint,
          length-receivers_bytes laws m.receivers,
          s.framed.header,
        )
        (omega arith)

  pub layout-Carries :
      (m : RelayPacket K) (payload : Message)
      → IsSendable m payload
      → Carries (layout m payload []) m
  unfolding bytes
  layout-Carries m payload s = record {
    message = payload;
    sendable = s;
    written = rw (encode-layout m payload s, bytes);
  }
