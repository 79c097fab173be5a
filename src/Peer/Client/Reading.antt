-- ===== src/Peer/Client/Reading.antt =====
-- peer/ws_client.go: the loop of readHandler, over the frames of a websocket connection.
use fim.Base.{
  ℕ, zero, suc, Bool, List, [], ◌++◌, ltb, ◌==◌, if◌then◌else◌, length, done, fail, panic, Act,
}
use fim.Wire.Buffer.{Bytes}
use fim.Wire.Message.{Message}
use fim.Peer.Client.{WsConn, ClientConf, ignoring, write_control, handle_message, op_close}

-- ws.OpBinary, ws.OpPing and ws.OpPong
abbrev pub op_binary : ℕ
op_binary = 2

abbrev pub op_ping : ℕ
op_ping = 9

abbrev pub op_pong : ℕ
op_pong = 10

-- The fields of ws.Header that the loop reads, `payload_len` its Length.
pub record WsHeader : Type 0 where
  pub op_code : ℕ
  pub payload_len : ℕ
  pub masked : Bool
  pub mask : Bytes

-- ws.ReadHeader and ws.Cipher of github.com/gobwas/ws, io.ReadFull behind the buffer of the
-- connection, and the test of the wait that Take of github.com/juju/ratelimit names against 0, on a
-- bucket of which the connection's Rate is the capacity.
pub record WsReader (C T : Type 0) : Type 0 where
  pub read_header : Act C WsHeader
  pub read_payload : ℕ → Act C Bytes
  pub cipher : Bytes → Bytes → Bytes
  pub new_bucket : ℕ → T
  pub take_waits : T → Bool × T

-- How the loop has come to its end; `unfinished` is a loop that has used up its fuel.
pub data End : Type 0 where
  stopped crashed unfinished : End

-- What the loop has handed to OnMsg, in order, and the connection and its bucket as it leaves them.
pub record Read (C : Type 0) : Type 0 where
  pub messages : List Message
  pub conn : C
  pub end : End

abbrev pub ended : {C : Type 0} → End → C → Read C
ended e c = record { messages = []; conn = c; end = e }

abbrev pub after_messages : {C : Type 0} → List Message → Read C → Read C
after_messages ms r = record r { messages = ms ++ r.messages }

abbrev pub unmask : (Bytes → Bytes → Bytes) → WsHeader → Bytes → Bytes
unmask cipher h payload = if h.masked then cipher payload h.mask else payload

module _ {C T : Type 0} ⦃ws : WsConn C⦄ ⦃rd : WsReader C T⦄ where
  -- A round from the payload on. `payload[0:10]` of a payload of fewer than ten bytes panics.
  unfoldable pub after_payload : WsHeader → Bytes → C → T → (C → T → Read C) → Read C
  after_payload h payload c t more =
      let (waits, t') = rd.take_waits t in
      if waits
      then (if ltb (length payload) 10 then ended crashed c else more c t')
      else if h.op_code == op_binary
      then (let handled = handle_message (unmask rd.cipher h payload) c in
          after_messages handled.messages (more handled.conn t'))
      else more c t'

  -- A round from the header on: a close frame ends the loop, any other moves the read deadline, and a
  -- ping is answered without its payload being read.
  unfoldable pub after_header : WsHeader → C → T → (C → T → Read C) → Read C
  unfolding after_payload
  after_header h c t more =
      if h.op_code == op_close
      then ended stopped c
      else (let c' = ignoring ws.set_read_deadline c in
          if h.op_code == op_ping
          then elim (write_control op_pong [] c') [
            | done _ c'' ↦ more c'' t
            | fail _ c'' ↦ ended stopped c''
            | panic ↦ ended crashed c'
          ]
          else if h.payload_len == 0
          then more c' t
          else elim (rd.read_payload h.payload_len c') [
            | done payload c'' ↦ after_payload h payload c'' t more
            | fail _ c'' ↦ ended stopped c''
            | panic ↦ ended crashed c'
          ])

  unfoldable pub read_loop : ℕ → C → T → Read C
  unfolding after_header
  read_loop zero c t = ended unfinished c
  read_loop (suc fuel) c t = elim (rd.read_header c) [
    | done h c' ↦ after_header h c' t (read_loop fuel)
    | fail _ c' ↦ ended stopped c'
    | panic ↦ ended crashed c
  ]

module _ {C : Type 0} (T : Type 0) ⦃ws : WsConn C⦄ ⦃rd : WsReader C T⦄ where
  -- readHandler up to its deferred function.
  unfoldable pub read_handler : ℕ → ClientConf → C → Read C
  unfolding read_loop
  read_handler fuel conf c =
      read_loop fuel (if conf.remote_ping then ignoring ws.set_read_deadline c else c)
        (rd.new_bucket conf.rate)
