-- ===== src/Lgcluster/Proxy.antt =====
-- lgcluster/proxy.go: LgClusterProxy, which carries packets from a gateway to the logic servers and
-- from the logic servers to the gateway.
pub mod Receiving
pub mod Sending
pub mod Channel
mod Tests
use fim.Base.{
  ◌-◌, ◌/◌, ap, not, Option, none, some, List, [], ◌∷◌, map, set, drop, done, fail, panic, Act,
  return, throw,
}
use fim.Base.GoMap.{insert}
use fim.Wire.Buffer.{Bytes}
use fim.Wire.Ksuid.{Ksuids}
use fim.Wire.Relay.{RelayPacket}
use fim.Wire.Relay
use fim.Peer.Stream.{NetConn}
use fim.Peer.Server.{Server, push}
use fim.Lgcluster.Cluster.{Cluster, get}

-- A receiver works on a state of its own, the gateway's.
abbrev pub Receive : Type 0 → Type 0 → Type 0
Receive K G = RelayPacket K → Act G (Unit {0})

-- `receive` is none when it is nil.
pub record Proxy (K G : Type 0) : Type 0 where
  pub receive : Option (Receive K G)

abbrev ignore_packet : {K G : Type 0} → Receive K G
ignore_packet pkt = return tt

-- NewLgClusterProxy: a receiver that is not nil is replaced by one that does nothing.
unfoldable pub new_lg_cluster_proxy : {K G : Type 0} → Option (Receive K G) → Proxy K G
new_lg_cluster_proxy none = record { receive = none }
new_lg_cluster_proxy (some _) = record { receive = some ignore_packet }

unfoldable pub set_receiver : {K G : Type 0} → Receive K G → Proxy K G → Proxy K G
set_receiver receive p = record p { receive = some receive }

module _ {K G : Type 0} ⦃ks : Ksuids K⦄ where
  -- The call of the receiver, whose error is dropped; a nil receiver panics.
  receive_packet : RelayPacket K → Proxy K G → G → Option G
  receive_packet pkt p g = elim p.receive [
    | none ↦ none
    | some f ↦ elim (f pkt g) [ done _ g' ↦ some g' | fail _ g' ↦ some g' | panic ↦ none ]
  ]

  -- A round of handleLogicServerMsg: a payload that cannot be decoded is logged and passed over.
  handle_payload : Bytes → Proxy K G → G → Option G
  unfolding receive_packet
  handle_payload payload p g = elim (Relay.decode payload) [
    | done pkt _ ↦ receive_packet pkt p g
    | fail _ _ ↦ some g
    | panic ↦ none
  ]

  -- The loop; `none` is a panic.
  pub handle_logic_server_msg : List Bytes → Proxy K G → G → Option G
  unfolding handle_payload
  handle_logic_server_msg [] p g = some g
  handle_logic_server_msg (payload ∷ rest) p g = elim (handle_payload payload p g) [
    | none ↦ none
    | some g' ↦ handle_logic_server_msg rest p g'
  ]

module _ {K W : Type 0} ⦃ks : Ksuids K⦄ ⦃c : NetConn W⦄ where
  abbrev put_server : Server K W → Cluster K (Server K W) → Cluster K (Server K W)
  put_server s b = record b { servers = insert ks.same s.id s b.servers }

  -- What is pushed to a server, which stands in the map under its own identifier; an error is logged.
  push_bytes : Option Bytes → Server K W → Cluster K (Server K W) → Option (Cluster K (Server K W))
  push_bytes none s b = none
  push_bytes (some out) s b = elim (push out s) [
    | done _ s' ↦ some (put_server s' b)
    | fail _ s' ↦ some (put_server s' b)
    | panic ↦ none
  ]

  -- A round of handleClientMessage: the log's look at the payload's header panics if it is nil;
  -- without a server the message is thrown away.
  unfoldable pub handle_client_message :
      RelayPacket K → Cluster K (Server K W) → Option (Cluster K (Server K W))
  unfolding push_bytes
  handle_client_message msg b = elim msg.payload [
    | none ↦ none
    | some _ ↦ elim (get ks.same b) [
      | none ↦ none
      | some (none, b') ↦ some b'
      | some (some server, b') ↦ push_bytes (Relay.bytes msg) server b'
    ]
  ]

  -- The loop over the packets of `in`.
  unfoldable pub handle_client_messages :
      List (RelayPacket K) → Cluster K (Server K W) → Option (Cluster K (Server K W))
  handle_client_messages [] b = some b
  handle_client_messages (msg ∷ rest) b = elim (handle_client_message msg b) [
    | none ↦ none
    | some b' ↦ handle_client_messages rest b'
  ]
