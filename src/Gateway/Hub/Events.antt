-- ===== src/Gateway/Hub/Events.antt =====
-- gateway/wss/hub.go: what comes to the gateway from its clients and from the logic servers, one thing
-- after the other.
use fim.Base.{Option, none, some, List, [], ◌∷◌, ◌++◌}
use fim.Wire.Ksuid.{Ksuids}
use fim.Wire.Message.{Message}
use fim.Wire.Relay.{RelayPacket}
use fim.Peer.Client.{WsClient, WsConn, ClientAttrs}
use fim.Gateway.Hub.{Gateway, Packet, disconnect, msg_relay, handle_client_message, push}

-- What comes out of OnMsg and of OnDisconnect.
pub data Event (K C : Type 0) : Type 0 where
  on_msg : K → ClientAttrs → Message → Event K C
  on_disconnect : WsClient K C → Event K C

module _ {K C : Type 0} ⦃ks : Ksuids K⦄ ⦃ws : WsConn C⦄ where
  -- A round of handleClientEvents, with the packets that have been put into `enqueue`; the error of Push
  -- is thrown away, and `none` is a panic.
  unfoldable pub handle_event :
      Event K C → Gateway K C → List (Packet K C) → Option (Gateway K C × List (Packet K C))
  handle_event (on_msg id attrs m) g enqueued = elim (handle_client_message id attrs m g) [
    | none ↦ none
    | some g' ↦ some (g', enqueued)
  ]
  handle_event (on_disconnect client) g enqueued = some (g, (push (disconnect client) g enqueued).1)

  unfoldable pub handle_client_events :
      List (Event K C) → Gateway K C → List (Packet K C) → Option (Gateway K C × List (Packet K C))
  handle_client_events [] g enqueued = some (g, enqueued)
  handle_client_events (e ∷ es) g enqueued = elim (handle_event e g enqueued) [
    | none ↦ none
    | some r ↦ handle_client_events es r.0 r.1
  ]

-- Receive, with the packets in the channel `relayIn`.
unfoldable pub receive : {K : Type 0} → RelayPacket K → List (RelayPacket K) → List (RelayPacket K)
receive pkt relay_in = relay_in ++ (pkt ∷ [])

-- handleSeverEvents on what is in `relayIn`.
unfoldable pub handle_sever_events :
    {K C : Type 0} → List (RelayPacket K) → List (Packet K C) → List (Packet K C)
handle_sever_events [] enqueued = enqueued
handle_sever_events (msg ∷ rest) enqueued =
    handle_sever_events rest (enqueued ++ (msg_relay msg ∷ []))
