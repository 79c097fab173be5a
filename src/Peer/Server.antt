-- ===== src/Peer/Server.antt =====
-- peer/tcp_peer.go: Server, a connection between servers with its state. What is sent to the channel
-- OnDisconnect, and the closing of the connection, are kept in the state.
pub mod Delivery
pub mod Heartbeat
pub mod Lifecycle
use fim.Base.{
  ℕ, zero, ◌+◌, ◌-◌, ◌/◌, ap, ite, Option, none, some, [], ◌==◌, if◌then◌else◌, length, set, drop,
  peer_is_closed, peer_is_opened, no_connection, addr_is_nil, external, Outcome, done, fail, panic,
  Act, ◌>>=◌, ◌>>◌, Writer,
}
use fim.Wire.Buffer.{Bytes, buffer}
use fim.Wire.Ksuid.{Ksuids}
use fim.Peer.OpCode
use fim.Peer.Frame
use fim.Peer.Frame.{Frame}
use fim.Peer.Handshake.{Conn, connect_server}
use fim.Peer.Stream.{NetConn, write_control, conn_writer}

abbrev pub server_closed : ℕ
server_closed = 0

abbrev pub server_starting : ℕ
server_starting = 1

abbrev pub server_started : ℕ
server_started = 2

abbrev pub server_closing : ℕ
server_closing = 3

pub data Side : Type 0 where
  side_client side_server : Side

-- `closes` counts the calls of conn.Close, and `disconnects` the sends to OnDisconnect.
pub record Server (K W : Type 0) : Type 0 where
  pub id : K
  pub meta : Bytes
  pub addr : Bytes
  pub conn : Option W
  pub side : Side
  pub state : ℕ
  pub closes : ℕ
  pub disconnects : ℕ

-- NewServer. The zero value of Side is SideClient.
unfoldable pub new_server : {K W : Type 0} → K → Bytes → Server K W
new_server id meta = record {
  id = id;
  meta = meta;
  addr = [];
  conn = none;
  side = side_client;
  state = server_closed;
  closes = 0;
  disconnects = 0;
}

module _ {W : Type 0} ⦃c : NetConn W⦄ where
  -- The frame goes through a buffer, whose Flush writes it on the connection. A frame that is
  -- longer than the buffer goes out in several pieces, here in one.
  pub write_frame : Frame → Act W (Unit {0})
  write_frame frame = do
    c.set_write_deadline
    λ w. elim (Frame.encode {W = Bytes} ⦃w = buffer⦄ frame []) [
      | done _ out ↦ c.write out w
      | fail e _ ↦ fail e w
      | panic ↦ panic
    ]

module _ {K W : Type 0} where
  -- Start up to its last compare-and-swap: the state, the connection and the side, for the
  -- goroutines that it starts.
  pub begin_start : Option W → Side → Act (Server K W) (Unit {0})
  begin_start conn side p =
      if p.state == server_closed
      then elim conn [
        | none ↦ fail no_connection p
        | some w ↦ done tt (record p { conn = some w; side = side; state = server_starting })
      ]
      else fail peer_is_opened p

  -- The end of Start, when its goroutines run.
  pub end_start : Act (Server K W) (Unit {0})
  end_start p =
      if p.state == server_starting
      then done tt (record p { state = server_started })
      else fail peer_is_opened p

  pub start : Option W → Side → Act (Server K W) (Unit {0})
  unfolding begin_start end_start
  start conn side = do begin_start conn side; end_start

  -- The deferred part of readHandler, between whose first and last compare-and-swap no other
  -- operation changes the state.
  pub end_read : Server K W → Server K W
  end_read p =
      if p.state == server_started
      then record p {
        state = server_closed;
        closes = p.closes + 1;
        disconnects = p.disconnects + 1;
      }
      else p

  module _ ⦃c : NetConn W⦄ where
    -- A call on the connection; there is none before Start, and a nil connection panics.
    abbrev on_conn : Act W (Unit {0}) → Act (Server K W) (Unit {0})
    on_conn m p = elim p.conn [
      | none ↦ panic
      | some w ↦ elim (m w) [
        | done _ w' ↦ done tt (record p { conn = some w' })
        | fail e w' ↦ fail e (record p { conn = some w' })
        | panic ↦ panic
      ]
    ]

    -- Push
    pub push : Bytes → Act (Server K W) (Unit {0})
    unfolding write_frame
    push payload p =
        if p.state == server_started
        then on_conn (write_frame (Frame.new_frame OpCode.message payload)) p
        else fail peer_is_closed p

    -- The state behind a call whose error is dropped.
    abbrev dropping : Server K W → Outcome (Server K W) (Unit {0}) → Server K W
    dropping p (done _ p') = p'
    dropping p (fail _ p') = p'
    dropping p panic = p

    -- Close: the close frame's error is dropped.
    pub close : Server K W → Server K W
    close p =
        if p.state == server_started
        then (let p' = dropping p (on_conn (write_control OpCode.close []) p) in
            record p' { state = server_closed; closes = p'.closes + 1 })
        else p

  -- Restart, on the connection that the dial of ConnectServer gives or its error.
  module _ ⦃ks : Ksuids K⦄ ⦃w : Writer W⦄ where
    unfoldable pub restart : (dialled : Option (Conn W)) → Act (Server K W) (Unit {0})
    unfolding start
    restart dialled p = if length p.addr == 0 then fail addr_is_nil p else elim dialled [
      | none ↦ fail external (record p { state = server_closed })
      | some conn ↦ elim (connect_server p.id p.meta conn) [
        | done _ conn' ↦ start (some conn'.out) p.side (record p { state = server_closed })
        | fail e _ ↦ fail e (record p { state = server_closed })
        | panic ↦ panic
      ]
    ]
