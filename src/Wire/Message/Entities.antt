-- ===== src/Wire/Message/Entities.antt =====
-- A message that carries an entity: from Write over the wire to GetPayloadEntity.
use fim.Base.{
  length-drop, subst, ◌%◌, ◌^◌, ◌<◌, ◌≤◌, ◌≡◌, ap, ◌++◌, length, take, drop, arith, done, some,
}
use fim.Wire.Buffer.{Bytes}
use fim.Wire.Entity.{Entity, Proto, ProtoLaws, kind}
use fim.Wire.Protocol.{get_empty_message}
use fim.Wire.Header.{IsHeader, get_pid, get_payload_len, set_payload_len}
use fim.Wire.Header.Fields.{fields, fields-set_payload_len}
use fim.Wire.Message
use fim.Wire.Message.{Message, write_payload, decode, bytes, get_payload_entity, entity}
use fim.Wire.Message.RoundTrip.{decode-bytes, bytes-parts, decode_counted}

-- The message that Write leaves when Marshal gives `out`.
abbrev pub written : Message → Bytes → Message
written m out = record { header = set_payload_len m.header (length out % 2 ^ 16); payload = out }

pub write_payload-written :
    (p : Proto) (e : Entity) (m : Message) (out : Bytes)
    → p.marshal e ≡ some out
    → write_payload p e m ≡ done tt (written m out)
unfolding write_payload
write_payload-written p e m out h = rw h

written_header :
    (m : Message) (out : Bytes)
    → IsHeader m.header
    → (get_pid (written m out).header ≡ get_pid m.header)
      × (get_payload_len (written m out).header ≡ length out % 2 ^ 16)
      × IsHeader (written m out).header
unfolding fields
written_header m out is =
    let (set, is') = fields-set_payload_len m.header (length out % 2 ^ 16) is (omega arith) in
    (ap (λ f. f.pid) set, ap (λ f. f.payload_len) set, is')

-- An entity that Marshal turns into fewer than 65536 bytes, written into a message with a ten-byte
-- header whose protocol is that of the entity's type: the bytes of the message decode to the
-- message, with what follows them left, and GetPayloadEntity of it gives the entity.
pub get_payload_entity-write_payload :
    (p : Proto) (e : Entity) (m : Message) (out rest : Bytes)
    → ProtoLaws p
    → IsHeader m.header
    → get_empty_message (get_pid m.header) ≡ some (kind e)
    → p.marshal e ≡ some out
    → length out < 2 ^ 16
    → (m' : Message) × (write_payload p e m ≡ done tt m')
      × (decode Message.empty (bytes m' ++ rest) ≡ done m' rest)
      × (get_payload_entity p m' ≡ entity e)
unfolding get_payload_entity
get_payload_entity-write_payload p e m out rest laws is known marshalled short =
    let (pid, len, is') = written_header m out is in
    (
      written m out,
      write_payload-written p e m out marshalled,
      decode-bytes (written m out) rest (record { header = is'; counted = omega (arith, len) }),
      rw (pid, known, laws.unmarshal-marshal e out marshalled, get_payload_entity),
    )

-- Write keeps only the low 16 bits of the payload's length: what the receiver of a message with a
-- ten-byte header decodes is cut there, and the rest of the payload is left in the buffer, where
-- the next message is expected.
pub decode-write_payload_long :
    (p : Proto) (e : Entity) (m : Message) (out : Bytes)
    → IsHeader m.header
    → p.marshal e ≡ some out
    → 2 ^ 16 ≤ length out
    → (m' : Message) × (write_payload p e m ≡ done tt m')
      × (decode Message.empty (bytes m')
          ≡ done
              (record m' { payload = take (length out % 2 ^ 16) out })
              (drop (length out % 2 ^ 16) out))
      × (0 < length (drop (length out % 2 ^ 16) out))
decode-write_payload_long p e m out is marshalled long =
    let (pid, len, is') = written_header m out is in
    (
      written m out,
      write_payload-written p e m out marshalled,
      rw (bytes-parts (written m out)) (
          subst
            (λ n.
              decode Message.empty ((written m out).header ++ out)
              ≡ done (record (written m out) { payload = take n out }) (drop n out))
            len (decode_counted (written m out).header out is' (omega (arith, len)))),
      omega (arith, length-drop {0} (length out % 2 ^ 16) out),
    )
