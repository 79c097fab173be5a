-- ===== src/Routes/Tests.antt =====
-- The ways between a gateway and a logic server with concrete messages.
use fim.Base.{ℕ, ◌+◌, ◌≡◌, refl, none, some, List, [], ◌∷◌, arith, ℕ_discrete, All}
use fim.Base.GoMap.{lookup}
use fim.Wire.Buffer.{Bytes}
use fim.Wire.Header.{get_payload_len}
use fim.Wire.Uint.{uint}
use fim.Wire.Relay.{RelayPacket}
use fim.Wire.Samples.{small_ids, small_ids-KsuidLaws, kick_format}
use fim.Peer.Client.{ClientAttrs}
use fim.Peer.Samples.{
  chat_message, ping_message, open_conn, open_conn-IsOpen, write_pong, open_conn-write_pong, sender,
}
use fim.Peer.Stream
use fim.Peer.Server.{Server, server_closed}
use fim.Lgcluster.Cluster.Single.{one_server}
use fim.Lgcluster.Proxy.{Proxy, handle_client_messages, set_receiver, handle_logic_server_msg}
use fim.Gateway.Samples.{gateway, socket, client, clients, socket-NoPanic, gateway-Counted}
use fim.Gateway.Hub.{Gateway, Packet, connect, disconnect, handle}
use fim.Gateway.Hub.Registry.{apply, drift, registered}
use fim.Gateway.Hub.Counting.{Keeps}
use fim.Gateway.Hub.Balance.{handle-Keeps}
use fim.Gateway.Hub.Refinement.{handle_all, replay, total_drift, handle_all-refines}
use fim.Routes.Logins.{handle_client_messages-handle_all}
use fim.Gateway.Hub.Events.{handle_client_events, handle_sever_events}
use fim.LgServer.{LgServer}
use fim.LgServer
use fim.LgServer.Gateways.{write_handler}
use fim.LgServer.Samples.{packet, packet-IsSendable}
use fim.Handler.{Dispatched, handle_in_message}
use fim.Handler.Pools.{IsDispatched}
use fim.Handler.Samples.{counted_pools, conf}
use fim.Routes.Link.{IsOutgoing}
use fim.Routes.Uplink.{
  ClientMessage, IsUplink, events, jobs_for, handle_in_message-handle_client_events,
}
use fim.Routes.Writing.{AreConnected, AreOutgoing, messages_to}
use fim.Routes.Downlink.{gateway_receive, relays, handle_sever_events-write_handler}

abbrev attrs : ClientAttrs
attrs = record { username = b'a' ∷ []; device = 1; remote_ip = [] }

-- A chat message, which has a handler, and a ping, which has none.
abbrev client_messages : List (ClientMessage ℕ)
client_messages = (7, attrs, chat_message) ∷ (7, attrs, ping_message) ∷ []

client_messages-IsUplink : All (IsUplink {K = ℕ}) client_messages
unfolding get_payload_len uint
client_messages-IsUplink = (
  record { framed = record { header = refl; counted = refl }; fits = omega arith },
  (record { framed = record { header = refl; counted = refl }; fits = omega arith }, tt),
)

abbrev lg : LgServer ℕ Bytes
lg = record { id = 0; state = 1; gateways = some ((3, sender) ∷ []); lgservers = []; handled = [] }

handle_in_message-handle_client_events_example :
    (g' : Gateway ℕ Bytes) × (out : Bytes) × (d : Dispatched ℕ ℕ) × (handle_client_events
        (events client_messages)
        gateway
        []
      ≡ some (g', []))
    × (handle_client_messages g'.sent (one_server 0 1 3 sender)
        ≡ some (one_server 0 1 3 (record sender { conn = some out })))
    × (handle_in_message counted_pools conf
          (LgServer.read_handler (Stream.read_handler {W = Bytes} out []).messages lg).handled
        ≡ some d)
    × IsDispatched counted_pools conf (jobs_for 0 client_messages) d
handle_in_message-handle_client_events_example =
    handle_in_message-handle_client_events counted_pools conf open_conn open_conn write_pong
      client_messages gateway 0 1 sender lg [] small_ids-KsuidLaws open_conn-IsOpen
      open_conn-write_pong refl refl refl refl refl client_messages-IsUplink

-- The logic server with two gateways, the second of them closed.
abbrev two_gateways : List (ℕ × Server ℕ Bytes)
two_gateways = (3, sender) ∷ (5, record sender { state = server_closed }) ∷ []

abbrev lg_two : LgServer ℕ Bytes
lg_two = record lg { gateways = some two_gateways }

two_gateways-AreConnected : AreConnected two_gateways
unfolding lookup
two_gateways-AreConnected i s e = ([], ground (arith, e))

abbrev to_gateways : List (ℕ × RelayPacket ℕ)
to_gateways = (3, packet) ∷ (5, packet) ∷ (4, packet) ∷ (3, packet) ∷ []

packet-IsOutgoing : IsOutgoing {K = ℕ} packet
packet-IsOutgoing = record { message = _; sendable = packet-IsSendable; fits = omega arith }

to_gateways-AreOutgoing : AreOutgoing {K = ℕ} to_gateways
to_gateways-AreOutgoing =
    (packet-IsOutgoing, (packet-IsOutgoing, (packet-IsOutgoing, (packet-IsOutgoing, tt))))

sender_found : lookup small_ids.same 3 two_gateways ≡ some sender
unfolding lookup ℕ_discrete
sender_found = refl

abbrev proxy : Proxy ℕ (List (RelayPacket ℕ))
proxy = record { receive = none }

handle_sever_events-write_handler_example :
    (lg' : LgServer ℕ Bytes) × (out : Bytes) × (relay_in : List (RelayPacket ℕ)) × (write_handler
        to_gateways lg_two
      ≡ some lg')
    × (LgServer.gateway 3 lg' ≡ some (record sender { conn = some out }))
    × (handle_logic_server_msg
          (Stream.read_handler {W = Bytes} out []).messages
          (set_receiver gateway_receive proxy)
          []
        ≡ some relay_in)
    × (handle_sever_events {C = Bytes} relay_in [] ≡ relays (messages_to 3 to_gateways))
handle_sever_events-write_handler_example =
    handle_sever_events-write_handler open_conn open_conn write_pong 3 to_gateways lg_two
      two_gateways sender proxy [] open_conn-IsOpen open_conn-write_pong small_ids-KsuidLaws refl
      sender_found refl refl two_gateways-AreConnected to_gateways-AreOutgoing

-- The client 7 goes and the client 8 comes.
abbrev leaves : List (Packet ℕ Bytes)
leaves = disconnect (client 7) ∷ []

abbrev left :
    Keeps
      (replay kick_format leaves (registered clients))
      (0 + total_drift kick_format leaves (registered clients))
      (handle_all kick_format leaves gateway)
left =
    handle_all-refines 0 kick_format leaves gateway clients socket-NoPanic gateway-Counted (tt, tt)

abbrev comes : Packet ℕ Bytes
comes = connect (client 8)

abbrev joined :
    Keeps
      (apply kick_format comes (registered left.clients_after))
      (0
        + total_drift kick_format leaves (registered clients)
        + drift kick_format comes (registered left.clients_after))
      (handle kick_format comes left.after)
joined =
    handle-Keeps (0 + total_drift kick_format leaves (registered clients)) kick_format comes
      left.after left.clients_after socket-NoPanic left.counted tt

handle_client_messages-handle_all_example :
    handle_client_messages {W = Bytes} joined.after.sent (one_server 0 1 3 sender) ≡ none
handle_client_messages-handle_all_example =
    handle_client_messages-handle_all kick_format leaves (client 8) gateway left.after joined.after
      (one_server 0 1 3 sender) refl left.returns joined.returns
