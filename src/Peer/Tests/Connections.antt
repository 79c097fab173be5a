-- ===== src/Peer/Tests/Connections.antt =====
-- The theorems about the connections of peer/ at concrete frames and messages.
use fim.Base.{
  ℕ, ◌≡◌, refl, ◌≢◌, true, Option, some, List, [], ◌∷◌, ◌++◌, arith, All, external, done, fail,
}
use fim.Wire.Buffer.{Bytes, buffer}
use fim.Wire.Samples.{small_ids, small_ids-KsuidLaws}
use fim.Peer.OpCode
use fim.Peer.Frame
use fim.Peer.Frame.{new_frame, empty}
use fim.Peer.Frame.RoundTrip.{frame_bytes, encode-new_frame, decode-encode}
use fim.Peer.Handshake.{HandshakeReq, answer, upgrade, connect_server}
use fim.Peer.Handshake.Reply.{Fits, accepted}
use fim.Peer.Handshake.Agreement.{connect_server-upgrade}
use fim.Peer.Stream.{NetConn, read_handler, write_control}
use fim.Peer.Stream.Delivery.{
  Sent, IsSent, stream, delivered, answered, read_handler_ended, read_handler-stream,
}
use fim.Peer.Client.{WsConn, handle_message}
use fim.Peer.Samples.{messages, messages-IsFramed}
use fim.Peer.Client.Batch.{batch, relayed, handle_message-batch}
use fim.Peer.Client.Batch

decode-encode_example :
    (out : Bytes) × (Frame.encode (new_frame OpCode.message (1 ∷ 2 ∷ [])) (9 ∷ [])
      ≡ done tt ((9 ∷ []) ++ out))
    × (Frame.decode empty (out ++ (8 ∷ [])) ≡ done (new_frame OpCode.message (1 ∷ 2 ∷ [])) (8 ∷ []))
    × (Frame.get_op_code (new_frame OpCode.message (1 ∷ 2 ∷ [])).header ≡ OpCode.message)
    × (Frame.get_payload_len (new_frame OpCode.message (1 ∷ 2 ∷ [])).header ≡ 2)
decode-encode_example = decode-encode OpCode.message (1 ∷ 2 ∷ []) (9 ∷ []) (8 ∷ []) (omega arith)

abbrev request : HandshakeReq ℕ
request = record { sid = 5; meta = 1 ∷ 2 ∷ [] }

-- A server that knows the identifier already.
abbrev refuse : HandshakeReq ℕ → ℕ × Option Bytes
refuse req = (303, some (b'd' ∷ b'u' ∷ b'p' ∷ []))

refusal-Fits : Fits (answer (refuse request))
refusal-Fits = record { code = omega arith; error = omega arith }

connect_server-upgrade_example :
    (to_server reply : Bytes) × (upgrade refuse
        (record { incoming = to_server ++ (7 ∷ []); out = [] })
      ≡ done request (record { incoming = 7 ∷ []; out = reply }))
    × (connect_server request.sid request.meta (record { incoming = reply ++ (6 ∷ []); out = [] })
        ≡ accepted (answer (refuse request)) (record { incoming = 6 ∷ []; out = to_server }))
connect_server-upgrade_example =
    connect_server-upgrade refuse request (6 ∷ []) (7 ∷ []) small_ids-KsuidLaws (omega arith)
      refusal-Fits

message_ne_handshake : OpCode.message ≢ OpCode.handshake
message_ne_handshake = omega arith

-- A connection that keeps what is written.
abbrev open_conn : NetConn Bytes
open_conn = record {
  write = λ p held. done tt (held ++ p);
  set_write_deadline = λ held. done tt held;
}

-- A connection whose writes fail.
abbrev broken_conn : NetConn Bytes
broken_conn = record {
  write = λ p held. fail external held;
  set_write_deadline = λ held. done tt held;
}

abbrev write_pong : Bytes → Bytes
write_pong held = held ++ frame_bytes OpCode.pong []

open_conn_writable :
    (w : Bytes) → write_control ⦃c = open_conn⦄ OpCode.pong [] w ≡ done tt (write_pong w)
unfolding write_control
open_conn_writable w = encode-new_frame OpCode.pong [] w (omega arith)

abbrev frames : List Sent
frames =
    (OpCode.ping, [])
    ∷ (OpCode.message, 1 ∷ 2 ∷ [])
    ∷ (OpCode.close, [])
    ∷ (OpCode.message, 3 ∷ 4 ∷ [])
    ∷ []

no_payload : (op : ℕ) → IsSent (op, [])
no_payload op = (omega arith, (λ _. refl), (λ _. refl))

a_message : (b c : ℕ) → IsSent (OpCode.message, b ∷ c ∷ [])
a_message b c = (omega arith, (λ e. absurd (omega arith)), (λ e. absurd (omega arith)))

frames-IsSent : All IsSent frames
frames-IsSent =
    (no_payload OpCode.ping, (a_message 1 2, (no_payload OpCode.close, (a_message 3 4, tt))))

read_handler_ended_example : (read_handler ⦃c = broken_conn⦄ (stream frames) []).ended ≡ true
read_handler_ended_example = read_handler_ended ⦃c = broken_conn⦄ (stream frames) []

read_handler-stream_example :
    read_handler ⦃c = open_conn⦄ (stream frames) []
    ≡ record { messages = delivered frames; out = answered write_pong frames []; ended = true }
read_handler-stream_example =
    read_handler-stream ⦃c = open_conn⦄ write_pong open_conn_writable frames [] frames-IsSent

-- A websocket connection that keeps what is written.
instance abbrev socket : WsConn Bytes
socket = record {
  write_server_binary = λ p held. done tt (held ++ p);
  write_server_message = λ op p held. done tt (held ++ (op ∷ p));
  set_write_deadline = λ held. done tt held;
  set_read_deadline = λ held. done tt held;
  close = λ held. done tt held;
}

handle_message-batch_example :
    handle_message {C = Bytes} (batch messages) []
    ≡ record { messages = relayed messages; conn = Batch.answered messages []; ended = true }
handle_message-batch_example = handle_message-batch messages [] messages-IsFramed
