-- ===== src/Peer/Handshake.antt =====
-- peer/tcp_peer.go: the handshake in front of a connection between servers. The side that connects
-- sends a request, and the side that accepts answers with a code.
pub mod Reply
pub mod Agreement
use fim.Base.{
  ◌>>=◌, ◌>>◌, ℕ, ◌-◌, ◌/◌, min, ite, not, Option, none, some, [], ◌==◌, if◌then◌else◌, drop,
  not_handshake, not_handshake_ack, handshake_failed, done, fail, panic, Act, and_then, return,
  throw, or_default, Writer,
}
use fim.Wire.Buffer.{Bytes, write, buffer}
use fim.Wire.Ksuid.{Ksuids, decode_ksuid}
use fim.Wire.Common.{read_bytes, read_uint16, read_string, write_bytes, write_uint16, write_string}
use fim.Peer.OpCode
use fim.Peer.Frame
use fim.Peer.Frame.{Frame, from_payload}

abbrev pub code_handshake_ok : ℕ
code_handshake_ok = 200

abbrev code_handshake_sid_null : ℕ
code_handshake_sid_null = 301

abbrev code_handshake_sid_invaild : ℕ
code_handshake_sid_invaild = 302

abbrev pub code_handshake_duplicated_sid : ℕ
code_handshake_duplicated_sid = 303

pub record HandshakeReq (K : Type 0) : Type 0 where
  pub sid : K
  pub meta : Bytes

pub record HandshakeAck : Type 0 where
  pub code : ℕ
  pub error : Bytes

pub decode_ack : Act Bytes HandshakeAck
decode_ack = do
  code ← read_uint16
  error ← read_string
  return (record { code = code; error = error })

pub encode_ack : {W : Type 0} ⦃w : Writer W⦄ → HandshakeAck → Act W (Unit {0})
encode_ack h = do write_uint16 h.code; write_string h.error

-- A connection: the bytes that the other side sends, and where the own ones go.
pub record Conn (W : Type 0) : Type 0 where
  pub incoming : Bytes
  pub out : W

abbrev receiving : {W A : Type 0} → Act Bytes A → Act (Conn W) A
receiving m c = elim (m c.incoming) [
  | done a rest ↦ done a (record c { incoming = rest })
  | fail e rest ↦ fail e (record c { incoming = rest })
  | panic ↦ panic
]

abbrev sending : {W A : Type 0} → Act W A → Act (Conn W) A
sending m c = elim (m c.out) [
  | done a out ↦ done a (record c { out = out })
  | fail e out ↦ fail e (record c { out = out })
  | panic ↦ panic
]

must_get_handshake_ack : {S : Type 0} → Frame → Act S HandshakeAck
must_get_handshake_ack f =
    if Frame.get_op_code f.header == OpCode.handshake_ack
    then from_payload f.payload decode_ack
    else throw not_handshake_ack

-- The deferred part of Upgrade: an error in building or writing the answer is dropped.
pub send_ack : {W : Type 0} ⦃w : Writer W⦄ → HandshakeAck → Act W (Unit {0})
send_ack ack w = or_default tt (
    (do
      resp ← Frame.new_frame_with_encoder OpCode.handshake_ack (encode_ack ack)
      Frame.encode resp)
      w)

abbrev pub answer : ℕ × Option Bytes → HandshakeAck
answer (code, none) = record { code = code; error = [] }
answer (code, some text) = record { code = code; error = text }

-- The side that connects accepts the code 200 only.
check_ack : {S : Type 0} → HandshakeAck → Act S (Unit {0})
check_ack ack = if ack.code == 200 then return tt else throw handshake_failed

pub read_ack : Act Bytes (Unit {0})
unfolding must_get_handshake_ack check_ack
read_ack = do resp ← Frame.decode Frame.empty; ack ← must_get_handshake_ack resp; check_ack ack

module _ {K : Type 0} ⦃ks : Ksuids K⦄ where
  pub decode_req : Act Bytes (HandshakeReq K)
  decode_req = do sid ← decode_ksuid; meta ← read_bytes; return (record { sid = sid; meta = meta })

  pub encode_req : {W : Type 0} ⦃w : Writer W⦄ → HandshakeReq K → Act W (Unit {0})
  encode_req h = do write (ks.bytes h.sid); write_bytes h.meta

  must_get_handshake_req : {S : Type 0} → Frame → Act S (HandshakeReq K)
  must_get_handshake_req f =
      if Frame.get_op_code f.header == OpCode.handshake
      then from_payload f.payload decode_req
      else throw not_handshake

  read_req : Act Bytes (HandshakeReq K)
  unfolding must_get_handshake_req
  read_req = do frame ← Frame.decode Frame.empty; must_get_handshake_req frame

  module _ {W : Type 0} ⦃w : Writer W⦄ where
    -- Upgrade with the callback OnHandshake, which gives a code and the text of an error or nil.
    -- Where the request cannot be read the code is still CodeHandshakeOk; the callback's error
    -- goes into the answer only, and not into the result.
    pub upgrade : (HandshakeReq K → ℕ × Option Bytes) → Act (Conn W) (HandshakeReq K)
    unfolding read_req send_ack
    upgrade on_handshake c = elim (receiving read_req c) [
      | fail e c' ↦
          and_then (sending (send_ack (record { code = code_handshake_ok; error = [] })) c')
            (λ _. throw e)
      | done req c' ↦ and_then (sending (send_ack (answer (on_handshake req))) c') (λ _. return req)
      | panic ↦ panic
    ]

    -- ConnectServer behind the dial: the request is written, then the answer is read.
    write_req : K → Bytes → Act W (Unit {0})
    write_req client_id meta = do
      req ←
          Frame.new_frame_with_encoder OpCode.handshake
            (encode_req (record { sid = client_id; meta = meta }))
      Frame.encode req

    pub connect_server : K → Bytes → Act (Conn W) (Unit {0})
    unfolding write_req read_ack
    connect_server client_id meta = do sending (write_req client_id meta); receiving read_ack
