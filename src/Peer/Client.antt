-- ===== src/Peer/Client.antt =====
-- peer/ws_client.go: WsClient, a client's connection to a gateway: the messages in a websocket
-- payload (handleMessage), and the pushes that the connection's state lets through.
pub mod Batch
pub mod Identity
pub mod Reading
pub mod Frames
pub mod Delivery
pub mod Lifecycle
use fim.Base.{
  ℕ, zero, suc, ◌-◌, ◌*◌, ◌/◌, ap, ite, Bool, true, false, not, List, [], ◌∷◌, ◌==◌, if◌then◌else◌,
  length, set, take, client_is_closed, client_is_started, Outcome, done, fail, panic, Act, ◌>>=◌,
  ◌>>◌, throw,
}
use fim.Wire.Buffer.{Bytes}
use fim.Wire.Header
use fim.Wire.Message
use fim.Wire.Message.{Message}
use fim.Wire.Pid

abbrev pub client_closed : ℕ
client_closed = 0

abbrev pub client_started : ℕ
client_started = 1

abbrev pub client_closing : ℕ
client_closing = 2

-- The package github.com/gobwas/ws, which is not part of the repository, on a connection: writes of
-- a binary and of a control message; and the connection's write deadline, read deadline and Close.
pub record WsConn (C : Type 0) : Type 0 where
  pub write_server_binary : Bytes → Act C (Unit {0})
  pub write_server_message : ℕ → Bytes → Act C (Unit {0})
  pub set_write_deadline : Act C (Unit {0})
  pub set_read_deadline : Act C (Unit {0})
  pub close : Act C (Unit {0})

-- ws.OpClose
abbrev pub op_close : ℕ
op_close = 8

pub record ClientAttrs : Type 0 where
  pub username : Bytes
  pub device : ℕ
  pub remote_ip : Bytes

-- PongWait is in nanoseconds.
pub record ClientConf : Type 0 where
  pub pong_wait : ℕ
  pub remote_ping : Bool
  pub reader_buffer_size : ℕ
  pub rate : ℕ

abbrev pub second : ℕ
second = 1000000000

-- DefConf, at the buffer size that ws.DefaultServerReadBufferSize gives.
abbrev pub def_conf : ℕ → ClientConf
def_conf default_size = record {
  pong_wait = second * 60;
  remote_ping = true;
  reader_buffer_size = default_size;
  rate = 10;
}

-- Reset sets every field, whatever the configuration was.
abbrev pub reset : ℕ → ClientConf → ClientConf
reset default_size conf = record conf {
  pong_wait = 0;
  remote_ping = false;
  reader_buffer_size = default_size;
  rate = 10;
}

-- The state and the connection, behind their locks.
pub record WsClient (K C : Type 0) : Type 0 where
  pub id : K
  pub attrs : ClientAttrs
  pub conf : ClientConf
  pub conn : C
  pub state : ℕ

-- NewClient, with the identifier of ksuid.NewRandom and the configuration that mergo.Merge makes of
-- the one that is given and of the default.
unfoldable pub new_client :
    {K C : Type 0}
    → (ClientConf → ClientConf → ClientConf)
    → ℕ
    → K
    → C
    → ClientConf
    → ClientAttrs
    → WsClient K C
new_client merge default_size id conn conf attrs = record {
  id = id;
  attrs = attrs;
  conf = merge conf (def_conf default_size);
  conn = conn;
  state = client_closed;
}

-- Start, whose goroutine is the read loop.
unfoldable pub start : {K C : Type 0} → Act (WsClient K C) (Unit {0})
start p =
    if p.state == client_closed
    then done tt (record p { state = client_started })
    else fail client_is_started p

-- What handleMessage has handed to OnMsg, in order, and whether its loop has ended.
pub record Handled (C : Type 0) : Type 0 where
  pub messages : List Message
  pub conn : C
  pub ended : Bool

abbrev add_message : {C : Type 0} → Message → Handled C → Handled C
add_message m r = record r { messages = m ∷ r.messages }

-- The state that a call leaves whose error is thrown away; these calls do not panic.
abbrev pub ignoring : {C : Type 0} → Act C (Unit {0}) → C → C
ignoring m c = elim (m c) [ done _ c' ↦ c' | fail _ c' ↦ c' | panic ↦ c ]

module _ {C : Type 0} ⦃ws : WsConn C⦄ where
  unfoldable pub write_control : ℕ → Bytes → Act C (Unit {0})
  write_control op_code payload = do ws.set_write_deadline; ws.write_server_message op_code payload

  unfoldable pub write_message : Bytes → Act C (Unit {0})
  write_message payload = do ws.set_write_deadline; ws.write_server_binary payload

  -- A message of the protocol's ping is answered, and the read deadline moves on.
  answer_ping : C → C
  answer_ping c = ignoring ws.set_read_deadline (ignoring (write_message Message.pong) c)

  -- A round on what Decode gave, with the further rounds: an error ends the loop.
  after_decode : Outcome Bytes Message → C → (Bytes → C → Handled C) → Handled C
  after_decode (fail e rest) c more = record { messages = []; conn = c; ended = true }
  after_decode panic c more = record { messages = []; conn = c; ended = true }
  after_decode (done msg rest) c more =
      if Header.get_pid msg.header == Pid.ping
      then more rest (answer_ping c)
      else add_message msg (more rest c)

  handle_loop : ℕ → Bytes → C → Handled C
  handle_loop zero buf c = record { messages = []; conn = c; ended = false }
  handle_loop (suc fuel) buf c =
      after_decode (Message.decode Message.empty buf) c (handle_loop fuel)

  -- Each round takes a byte at least from the buffer, or ends on its end.
  pub handle_message : Bytes → C → Handled C
  unfolding handle_loop
  handle_message payload c = handle_loop (suc (length payload)) payload c

  -- The writes of a client in its connection.
  on_conn : {K : Type 0} → Act C (Unit {0}) → Act (WsClient K C) (Unit {0})
  on_conn m p = elim (m p.conn) [
    | done _ c ↦ done tt (record p { conn = c })
    | fail e c ↦ fail e (record p { conn = c })
    | panic ↦ panic
  ]

  -- Push
  unfoldable pub push : {K : Type 0} → Bytes → Act (WsClient K C) (Unit {0})
  unfolding on_conn
  push payload p =
      if p.state == client_started
      then on_conn (write_message payload) p
      else fail client_is_closed p

  -- Close behind its compare-and-swap: where the close message cannot be written the connection is
  -- left open. The deferred swap makes the state closed on both ways.
  close_started : {K : Type 0} → WsClient K C → WsClient K C
  unfolding on_conn
  close_started p = elim (write_control op_close [] p.conn) [
    | done _ c ↦ record p { conn = ignoring ws.close c; state = client_closed }
    | fail _ c ↦ record p { conn = c; state = client_closed }
    | panic ↦ record p { state = client_closed }
  ]

  pub close : {K : Type 0} → WsClient K C → WsClient K C
  unfolding close_started
  close p = if p.state == client_started then close_started p else p
