-- ===== src/Gateway/Hub.antt =====
-- gateway/wss/hub.go: the gateway's map of clients and the handlers of the three kinds of packets,
-- which packetPushDequeueHandler runs one after the other.
pub mod Registry
pub mod Counting
pub mod Relaying
pub mod KickOut
pub mod Balance
pub mod Refinement
pub mod Events
pub mod Hollow
mod Tests
use fim.Base.{
  ℕ, ◌+◌, ◌-◌, ◌/◌, ◌%◌, ◌^◌, ap, Bool, true, false, not, Option, none, some, List, [], ◌∷◌, ◌++◌,
  map, ◌==◌, if◌then◌else◌, length, take, Error, hub_closed, hub_started, done, fail, panic, return,
}
use fim.Base.GoMap.{lookup, insert, delete}
use fim.Wire.Buffer.{Bytes}
use fim.Wire.Ksuid.{Ksuids, parse_or_nil}
use fim.Wire.Entity.{Entity, Proto}
use fim.Wire.Entity
use fim.Wire.Header
use fim.Wire.Message
use fim.Wire.Message.{Message, entity, get_payload_entity}
use fim.Wire.Pid
use fim.Wire.Relay.{RelayPacket, new_empty_relay_message, new_relay_message}
use fim.Wire.Protocol.{is_protocol}
use fim.Peer.Seq
use fim.Peer.Client.{WsClient, WsConn, ClientAttrs}
use fim.Peer.Client

abbrev pub closed : ℕ
closed = 0

abbrev pub started : ℕ
started = 1

abbrev pub closing : ℕ
closing = 2

pub record HubConf : Type 0 where
  pub jwt_appkey : Bytes
  pub jwt_secret : Bytes
  pub listen : Bytes
  pub ssl : Bool
  pub max_connections : ℕ

-- `clients` is the map, `none` when it is nil; `client_num` is the bit pattern of an int32. `sent`
-- holds what lgProxy.Send has been given, `has_proxy` whether lgProxy is there, `sequence` the
-- number under peer.Seq, and `hung_up` the clients that the gateway has taken out and closed.
pub record Gateway (K C : Type 0) : Type 0 where
  pub id : K
  pub conf : HubConf
  pub state : ℕ
  pub clients : Option (List (K × WsClient K C))
  pub client_num : ℕ
  pub has_proxy : Bool
  pub sent : List (RelayPacket K)
  pub sequence : ℕ
  pub hung_up : List (WsClient K C)

-- What goes through the queue: `use` and `body` of a Packet.
pub data Packet (K C : Type 0) : Type 0 where
  connect : WsClient K C → Packet K C
  disconnect : WsClient K C → Packet K C
  msg_relay : RelayPacket K → Packet K C

module _ {K C : Type 0} ⦃ks : Ksuids K⦄ ⦃ws : WsConn C⦄ where
  -- NewGateway. The identifier that it is given goes into the log's fields only.
  unfoldable pub new_gateway : K → HubConf → ℕ → Gateway K C
  new_gateway id conf sequence = record {
    id = ks.nil;
    conf = conf;
    state = closed;
    clients = some [];
    client_num = 0;
    has_proxy = true;
    sent = [];
    sequence = sequence;
    hung_up = [];
  }

  abbrev find_client : K → Gateway K C → Option (WsClient K C)
  find_client k g = elim g.clients [ none ↦ none | some m ↦ lookup ks.same k m ]

  -- `delete(g.clients, k)`; on a nil map it does nothing.
  abbrev delete_client : K → Gateway K C → Gateway K C
  delete_client k g = record g {
    clients = elim g.clients [ none ↦ none | some m ↦ some (delete ks.same k m) ];
  }

  -- `g.clients[client.ID] = client`; a nil map panics.
  abbrev put_client : WsClient K C → Gateway K C → Option (Gateway K C)
  put_client c g = elim g.clients [
    | none ↦ none
    | some m ↦ some (record g { clients = some (insert ks.same c.id c m) })
  ]

  -- lgProxy.Send; a nil lgProxy panics.
  abbrev send : RelayPacket K → Gateway K C → Option (Gateway K C)
  send pkt g = if g.has_proxy then some (record g { sent = g.sent ++ (pkt ∷ []) }) else none

  -- `peer.Seq.Next()`, for a message that is not used further.
  abbrev take_sequence : Gateway K C → Gateway K C
  take_sequence g = record g { sequence = (Seq.next g.sequence).0 }

  -- atomic.AddInt32 of 1 and of -1.
  abbrev count_up : Gateway K C → Gateway K C
  count_up g = record g { client_num = (g.client_num + 1) % 2 ^ 32 }

  abbrev count_down : Gateway K C → Gateway K C
  count_down g = record g { client_num = (g.client_num + (2 ^ 32 - 1)) % 2 ^ 32 }

  infixl 5 ◌then◌
  abbrev ◌then◌ : Option (Gateway K C) → (Gateway K C → Option (Gateway K C)) → Option (Gateway K C)
  none then f = none
  some g then f = f g

  -- The login message that is built here is not put into the packet that is sent. The client's attributes
  -- are taken to be there: they are nil once its read loop has ended, and a read of them panics.
  pub handle_client_connect : WsClient K C → Gateway K C → Option (Gateway K C)
  handle_client_connect client g =
      put_client client g
      then (λ g'. send (new_empty_relay_message g.id) (take_sequence g'))
      then (λ g'. some (count_up g'))

  -- Nor is the logout message.
  pub send_disconnect_packet : K → Gateway K C → Option (Gateway K C)
  send_disconnect_packet peer_id g = send (new_empty_relay_message g.id) (take_sequence g)

  pub handle_client_disconnect : WsClient K C → Gateway K C → Option (Gateway K C)
  unfolding send_disconnect_packet
  handle_client_disconnect client g = elim (find_client client.id g) [
    | none ↦ some g
    | some _ ↦
        send_disconnect_packet client.id (delete_client client.id g)
        then (λ g'. some (count_down g'))
  ]

  -- Push to a client of the map, whose errors are logged; its connection moves on.
  push_to : WsClient K C → Bytes → Gateway K C → Option (Gateway K C)
  push_to c payload g = elim (Client.push payload c) [
    | done _ c' ↦ put_client c' g
    | fail _ c' ↦ put_client c' g
    | panic ↦ none
  ]

  -- The loop over the receivers, with the number of them that are clients.
  pub relay_loop : Bytes → List K → ℕ → Gateway K C → Option (Gateway K C × ℕ)
  unfolding push_to send_disconnect_packet
  relay_loop payload [] aff g = some (g, aff)
  relay_loop payload (recv ∷ rest) aff g = elim (find_client recv g) [
    | some c ↦ elim (push_to c payload g) [
      | none ↦ none
      | some g' ↦ relay_loop payload rest (aff + 1) g'
    ]
    | none ↦ elim (send_disconnect_packet recv g) [
      | none ↦ none
      | some g' ↦ relay_loop payload rest aff g'
    ]
  ]

  -- The end of handleMsgRelay for a kick-out: the client leaves the map and is closed. A payload
  -- that is no KickOut fails the type assertion.
  pub kick_out : Proto → Message → Gateway K C → Option (Gateway K C)
  kick_out proto m g = elim (get_payload_entity proto m) [
    | entity (Entity.kick_out k) ↦ elim (find_client (parse_or_nil k.peer_id) g) [
      | none ↦ some g
      | some client ↦
          let g' = delete_client (parse_or_nil k.peer_id) g in
          some (record g' { hung_up = g.hung_up ++ (Client.close client ∷ []) })
    ]
    | _ ↦ none
  ]

  after_relay : Proto → Message → Option (Gateway K C × ℕ) → Option (Gateway K C)
  unfolding kick_out
  after_relay proto m none = none
  after_relay proto m (some (g, aff)) =
      if aff == 0
      then some g
      else if Header.get_pid m.header == Pid.kick_out
      then kick_out proto m g
      else some g

  pub handle_msg_relay : Proto → RelayPacket K → Gateway K C → Option (Gateway K C)
  unfolding relay_loop after_relay
  handle_msg_relay proto message g =
      if length message.receivers == 0 then some g else elim message.payload [
        | none ↦ none
        | some m ↦ after_relay proto m (relay_loop (Message.bytes m) message.receivers 0 g)
      ]

  -- The switch of packetPushDequeueHandler; `none` is a panic.
  pub handle : Proto → Packet K C → Gateway K C → Option (Gateway K C)
  handle proto (connect client) g = handle_client_connect client g
  handle proto (disconnect client) g = handle_client_disconnect client g
  handle proto (msg_relay message) g = handle_msg_relay proto message g

  -- A message of a client on its way to the logic servers (handleClientEvents).
  unfoldable pub handle_client_message :
      K → ClientAttrs → Message → Gateway K C → Option (Gateway K C)
  handle_client_message id attrs m g =
      if is_protocol (Header.get_pid m.header)
      then send
          (record (new_relay_message id attrs.username attrs.device g.id) { payload = some m }) g
      else some g

  pub is_open : Gateway K C → Bool
  is_open g = g.state == started

  -- Push, with the packets that have been put into `enqueue`.
  unfoldable pub push :
      Packet K C → Gateway K C → List (Packet K C) → Option Error × List (Packet K C)
  push p g enqueued =
      if g.state == started then (none, enqueued ++ (p ∷ [])) else (some hub_closed, enqueued)

  -- Start, and whether it returns ErrHubStarted; what it starts runs on its own.
  unfoldable pub start : Gateway K C → Gateway K C × Option Error
  start g =
      if g.state == closed then (record g { state = started }, none) else (g, some hub_started)

  -- The loop of Shutdown over the clients.
  shutdown_loop : List (K × WsClient K C) → Gateway K C → Option (Gateway K C)
  unfolding send_disconnect_packet
  shutdown_loop [] g = some g
  shutdown_loop ((k, client) ∷ rest) g = elim (send_disconnect_packet client.id g) [
    | none ↦ none
    | some g' ↦
        shutdown_loop rest (record g' { hung_up = g'.hung_up ++ (Client.close client ∷ []) })
  ]

  -- The map in the order in which the loop ranges over it.
  abbrev entries : Gateway K C → List (K × WsClient K C)
  entries g = elim g.clients [ none ↦ [] | some m ↦ m ]

  -- Shutdown, and whether it returns ErrHubClosed.
  pub shutdown : Gateway K C → Option (Gateway K C × Bool)
  unfolding shutdown_loop
  shutdown g =
      if g.state == started
      then elim (shutdown_loop (entries g) (record g { state = closing })) [
        | none ↦ none
        | some g' ↦ some (record g' { clients = none; has_proxy = false; state = closed }, false)
      ]
      else some (g, true)
