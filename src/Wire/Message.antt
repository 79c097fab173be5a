-- ===== src/Wire/Message.antt =====
-- wire/message.go: Message, a header and the payload behind it.
pub mod RoundTrip
pub mod Entities
use fim.Base.{
  ℕ, ◌-◌, ◌%◌, ◌^◌, ◌≡◌, List, [], ◌∷◌, ◌++◌, length, take, drop, replicate, get_or, set, ◌==◌,
  if◌then◌else◌, Act, Outcome, done, fail, panic, ◌>>=◌, ◌>>◌, return, throw, pid_no_found, Writer,
  Option, none, some,
}
use fim.Wire.Buffer.{Bytes, read, write, buffer}
use fim.Wire.Ksuid.{or_external}
use fim.Wire.Uint.{put_uint}
use fim.Wire.Protocol.{get_empty_message}
use fim.Wire.Entity.{Entity, Proto}
use fim.Wire.Header
use fim.Wire.Pid

pub record Message : Type 0 where
  pub header : Bytes
  pub payload : Bytes

-- `new(Message)`
abbrev pub empty : Message
empty = record { header = Header.empty; payload = [] }

pub new_message : ℕ → ℕ → Message
new_message protocol_id sequence = record {
  header = Header.set_sequence (set Header.empty 0 protocol_id) sequence;
  payload = [];
}

pub new_err_message : ℕ → ℕ → ℕ → Message
new_err_message protocol_id sequence err_code = record {
  header = Header.set_sequence (set (set Header.empty 0 protocol_id) 9 err_code) sequence;
  payload = [];
}

-- `r.Read(m.Payload)` of a new slice of `n` zeros, which one Read may fill only in part.
abbrev read_payload : ℕ → Act Bytes Bytes
read_payload n = do got ← read n; return (got ++ drop (length got) (replicate n 0))

-- The part of Decode behind the header.
unfoldable pub decode_payload : Message → Act Bytes Message
decode_payload m s =
    if Header.get_payload_len m.header == 0
    then done m s
    else (do
      payload ← read_payload (Header.get_payload_len m.header)
      return (record m { payload = payload }))
        s

-- What a failed Decode has written into `m` is left out: no caller looks at it.
unfoldable pub decode : Message → Act Bytes Message
unfolding decode_payload
decode m = do header ← Header.decode m.header; decode_payload (record m { header = header })

unfoldable pub encode : {W : Type 0} ⦃w : Writer W⦄ → Message → Act W (Unit {0})
encode m = do Header.encode m.header; if length m.payload == 0 then return tt else write m.payload

-- What a buffer holds after the call; an error is only logged.
abbrev pub held : Outcome Bytes (Unit {0}) → Bytes
held (done _ s) = s
held (fail _ s) = s
held panic = []

-- `m.Bytes()`; Encode into a buffer does not panic.
unfoldable pub bytes : Message → Bytes
bytes m = held (encode m [])

-- `m.Write(payload)`; the length's conversion to uint16 keeps its low 16 bits.
pub write_payload : Proto → Entity → Act Message (Unit {0})
write_payload proto payload = do
  out ← or_external (proto.marshal payload)
  λ m.
      done tt
        (record { payload = out; header = Header.set_payload_len m.header (length out % 2 ^ 16) })

pub data EntityResult : Type 0 where
  entity : Entity → EntityResult
  pid_error unmarshal_error : EntityResult

unfoldable pub get_payload_entity : Proto → Message → EntityResult
get_payload_entity proto m = elim (get_empty_message (Header.get_pid m.header)) [
  | none ↦ pid_error
  | some k ↦ elim (proto.unmarshal k m.payload) [ none ↦ unmarshal_error | some e ↦ entity e ]
]

-- The ready-made messages.
abbrev pub ping : Bytes
ping = Pid.ping ∷ replicate 9 0

abbrev pub pong : Bytes
pong = Pid.pong ∷ replicate 9 0
