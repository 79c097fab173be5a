-- ===== src/Peer/Samples.antt =====
-- Messages of the protocol, and a connection between servers, for tests.
use fim.Base.{ℕ, ◌≡◌, refl, some, List, [], ◌∷◌, ◌++◌, arith, All, done}
use fim.Wire.Buffer.{Bytes}
use fim.Peer.OpCode
use fim.Peer.Frame.RoundTrip.{frame_bytes, encode-new_frame}
use fim.Peer.Stream.{NetConn, write_control}
use fim.Peer.Server.{Server, side_client}
use fim.Peer.Server.Delivery.{IsOpen}
use fim.Wire.Header.{get_payload_len}
use fim.Wire.Uint.{uint}
use fim.Wire.Message.{Message}
use fim.Wire.Message
use fim.Wire.Message.RoundTrip.{IsFramed}

abbrev pub ping_message : Message
ping_message = record { header = Message.ping; payload = [] }

abbrev pub chat_message : Message
chat_message = record {
  header = 0x11 ∷ 0 ∷ 1 ∷ 0 ∷ 0 ∷ 0 ∷ 2 ∷ 0 ∷ 0 ∷ 0 ∷ [];
  payload = 1 ∷ 2 ∷ [];
}

abbrev pub messages : List Message
messages = chat_message ∷ ping_message ∷ chat_message ∷ []

pub messages-IsFramed : All IsFramed messages
unfolding get_payload_len uint
messages-IsFramed = (
  record { header = refl; counted = refl },
  (record { header = refl; counted = refl }, (record { header = refl; counted = refl }, tt)),
)

-- A connection that keeps what is written.
instance abbrev pub open_conn : NetConn Bytes
open_conn = record {
  write = λ p held. done tt (held ++ p);
  set_write_deadline = λ held. done tt held;
}

pub open_conn-IsOpen : IsOpen open_conn
open_conn-IsOpen = record { deadline = λ w. refl; write = λ p w. refl }

abbrev pub write_pong : Bytes → Bytes
write_pong held = held ++ frame_bytes OpCode.pong []

pub open_conn-write_pong :
    (w : Bytes) → write_control ⦃c = open_conn⦄ OpCode.pong [] w ≡ done tt (write_pong w)
unfolding write_control
open_conn-write_pong w = encode-new_frame OpCode.pong [] w (omega arith)

abbrev pub sender : Server ℕ Bytes
sender = record {
  id = 3;
  meta = [];
  addr = [];
  conn = some [];
  side = side_client;
  state = 2;
  closes = 0;
  disconnects = 0;
}
