-- ===== src/Wire/Tests.antt =====
-- The theorems about wire/ at concrete identifiers, messages and packets.
use fim.Base.{
  ℕ, ◌-◌, ◌%◌, ◌^◌, ◌≤◌, ◌<◌, ◌≡◌, refl, true, ◌||◌, none, some, [], ◌∷◌, ◌++◌, arith, ◌==◌, length,
  take, drop, replicate, length-replicate, done,
}
use fim.Wire.Buffer.{Bytes, buffer}
use fim.Wire.Uint.{uint}
use fim.Wire.Pid
use fim.Wire.Entity.{Entity}
use fim.Wire.Entity
use fim.Wire.Protocol.{get_empty_message, is_protocol}
use fim.Wire.Protocol.Known.{is_protocol-get_empty_message}
use fim.Wire.Header.{
  get_pid, get_payload_len, set_sequence, set_sequence_ack, set_payload_len, IsHeader,
}
use fim.Wire.Header.Fields.{fields, setters_set_one_field}
use fim.Wire.Message
use fim.Wire.Message.{Message, decode, bytes, write_payload, get_payload_entity, entity}
use fim.Wire.Message.RoundTrip.{IsFramed, decode-bytes, decode_short}
use fim.Wire.Message.Entities.{get_payload_entity-write_payload, decode-write_payload_long}
use fim.Wire.Relay.{RelayPacket}
use fim.Wire.Relay
use fim.Wire.Relay.RoundTrip.{IsSendable, decode-relay_bytes}
use fim.Wire.AckCode
use fim.Wire.Common.Sequence.{Values, InRange, write_values, read_values, read_values-write_values}
use fim.Wire.Samples.{small_ids, small_ids-KsuidLaws, kick_format, kick_format-ProtoLaws, kick_7}

abbrev cut_short : Bytes
cut_short = 1 ∷ 2 ∷ []

-- The header of a kick-out with three bytes of payload.
abbrev kick_header : Bytes
kick_header = Pid.kick_out ∷ 0 ∷ 9 ∷ 0 ∷ 0 ∷ 0 ∷ 3 ∷ 0 ∷ 0 ∷ 0 ∷ []

abbrev kick_message : Message
kick_message = record { header = kick_header; payload = 1 ∷ 2 ∷ 3 ∷ [] }

kick_message-IsFramed : IsFramed kick_message
unfolding get_payload_len uint
kick_message-IsFramed = record { header = refl; counted = refl }

decode-bytes_example :
    decode Message.empty (bytes kick_message ++ (5 ∷ [])) ≡ done kick_message (5 ∷ [])
decode-bytes_example = decode-bytes kick_message (5 ∷ []) kick_message-IsFramed

length-cut_short : length cut_short ≤ get_payload_len kick_header
unfolding get_payload_len uint
length-cut_short = omega arith

decode_short_example :
    decode Message.empty (kick_header ++ cut_short)
    ≡ done
        (record {
          header = kick_header;
          payload = cut_short ++ replicate (get_payload_len kick_header - length cut_short) 0;
        })
        []
decode_short_example = decode_short kick_header cut_short refl (omega arith) length-cut_short

kick_known : get_empty_message (get_pid kick_header) ≡ some (Entity.kind (Entity.kick_out kick_7))
unfolding get_empty_message get_pid
kick_known = refl

get_payload_entity-write_payload_example :
    (m' : Message) × (write_payload kick_format (Entity.kick_out kick_7) kick_message ≡ done tt m')
    × (decode Message.empty (bytes m' ++ (5 ∷ [])) ≡ done m' (5 ∷ []))
    × (get_payload_entity kick_format m' ≡ entity (Entity.kick_out kick_7))
get_payload_entity-write_payload_example =
    get_payload_entity-write_payload kick_format (Entity.kick_out kick_7) kick_message
      kick_7.peer_id (5 ∷ []) kick_format-ProtoLaws refl kick_known refl (omega arith)

abbrev long_text : Bytes
long_text = replicate 65537 8

abbrev kick_long : Entity
kick_long = Entity.kick_out (record { peer_id = long_text })

length-long_text : 2 ^ 16 ≤ length long_text
length-long_text = omega (arith, length-replicate {0} {A = ℕ} 65537 8)

decode-write_payload_long_example :
    (m' : Message) × (write_payload kick_format kick_long kick_message ≡ done tt m')
    × (decode Message.empty (bytes m')
        ≡ done
            (record m' { payload = take (length long_text % 2 ^ 16) long_text })
            (drop (length long_text % 2 ^ 16) long_text))
    × (0 < length (drop (length long_text % 2 ^ 16) long_text))
decode-write_payload_long_example =
    decode-write_payload_long kick_format kick_long kick_message long_text refl refl
      length-long_text

setters_set_one_field_example :
    ((fields (set_sequence kick_header 500) ≡ record (fields kick_header) { sequence = 500 })
      × IsHeader (set_sequence kick_header 500))
    × ((fields (set_sequence_ack kick_header 500)
          ≡ record (fields kick_header) { sequence_ack = 500 })
        × IsHeader (set_sequence_ack kick_header 500))
    × ((fields (set_payload_len kick_header 500)
          ≡ record (fields kick_header) { payload_len = 500 })
        × IsHeader (set_payload_len kick_header 500))
setters_set_one_field_example = setters_set_one_field kick_header 500 refl (omega arith)

abbrev packet : RelayPacket ℕ
packet = record {
  uuid = 3;
  username = b'j' ∷ b'o' ∷ [];
  device = 2;
  location = 4;
  receivers = 7 ∷ 8 ∷ [];
  payload = some kick_message;
}

packet-IsSendable : IsSendable packet kick_message
packet-IsSendable = record {
  has_payload = refl;
  framed = kick_message-IsFramed;
  username_fits = omega arith;
  receivers_fit = omega arith;
}

decode-relay_bytes_example :
    (out : Bytes) × (Relay.bytes packet ≡ some out)
    × (Relay.decode (out ++ (5 ∷ [])) ≡ done packet (5 ∷ []))
decode-relay_bytes_example =
    decode-relay_bytes packet kick_message (5 ∷ []) small_ids-KsuidLaws packet-IsSendable

abbrev values : Values
values = record {
  byte = 200;
  short = 60000;
  word = 4000000000;
  long = 9000000000;
  buf = 1 ∷ 2 ∷ [];
  str = b'f' ∷ b'i' ∷ b'm' ∷ [];
}

values-InRange : InRange values
values-InRange = record {
  short = omega arith;
  word = omega arith;
  long = omega arith;
  buf = omega arith;
  str = omega arith;
}

read_values-write_values_example :
    (out : Bytes) × (write_values values (5 ∷ []) ≡ done tt ((5 ∷ []) ++ out))
    × (read_values (out ++ (6 ∷ [])) ≡ done values (6 ∷ []))
read_values-write_values_example = read_values-write_values values (5 ∷ []) (6 ∷ []) values-InRange

is_protocol-get_empty_message_example :
    is_protocol 5
    ≡ elim (get_empty_message 5) [ none ↦ 5 == Pid.ping || 5 == Pid.pong | some _ ↦ true ]
is_protocol-get_empty_message_example = is_protocol-get_empty_message 5

abbrev chat_header : Bytes
chat_header = 0x11 ∷ 0 ∷ 1 ∷ 0 ∷ 2 ∷ 1 ∷ 4 ∷ 0 ∷ 0 ∷ 0x50 ∷ []
