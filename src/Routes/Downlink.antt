-- ===== src/Routes/Downlink.antt =====
-- Packets of a logic server, on their way to the queue of a gateway.
use fim.Base.{
  ◌≡◌, refl, sym, ap, ◌∙◌, some, List, [], ◌∷◌, ◌++◌, append-nil, append_assoc, All, done,
}
use fim.Base.GoMap.{lookup}
use fim.Wire.Buffer.{Bytes}
use fim.Wire.Ksuid.{Ksuids, KsuidLaws}
use fim.Wire.Relay.{RelayPacket}
use fim.Peer.OpCode
use fim.Peer.Stream.{NetConn, write_control}
use fim.Peer.Stream
use fim.Peer.Stream.Delivery.{stream}
use fim.Peer.Server.{Server, server_started}
use fim.Peer.Server.Delivery.{IsOpen, messages}
use fim.Lgcluster.Proxy.{Proxy, Receive, set_receiver, handle_logic_server_msg}
use fim.Lgcluster.Proxy.Receiving.{Item, IsItem, payloads, packets, handle_kept}
use fim.Gateway.Hub.{Packet, msg_relay}
use fim.Gateway.Hub.Events.{receive, handle_sever_events}
use fim.LgServer.{LgServer, gateway}
use fim.LgServer.Gateways.{write_handler}
use fim.Routes.Link.{
  IsOutgoing, relay_bytes, all_bytes, relay_bytes-Carries, read_handler-all_bytes,
}
use fim.Routes.Writing.{
  messages_to, AreOutgoing, AreConnected, messages_to-IsOutgoing, write_handler-written,
}

-- Receive of the gateway, as the receiver of the proxy.
abbrev pub gateway_receive : {K : Type 0} → Receive K (List (RelayPacket K))
gateway_receive pkt relay_in = done tt (receive pkt relay_in)

abbrev pub relays : {K C : Type 0} → List (RelayPacket K) → List (Packet K C)
relays [] = []
relays (m ∷ ms) = msg_relay m ∷ relays ms

module _ {K : Type 0} ⦃ks : Ksuids K⦄ where
  -- The packets with their bytes.
  abbrev items : List (RelayPacket K) → List (Item K)
  items [] = []
  items (m ∷ ms) = (relay_bytes m, some m) ∷ items ms

  payloads-items : (ms : List (RelayPacket K)) → payloads (items ms) ≡ all_bytes ms
  payloads-items [] = refl
  payloads-items (m ∷ ms) = ap (λ bs. relay_bytes m ∷ bs) (payloads-items ms)

  packets-items : (ms : List (RelayPacket K)) → packets (items ms) ≡ ms
  packets-items [] = refl
  packets-items (m ∷ ms) = ap (λ ps. m ∷ ps) (packets-items ms)

  items-IsItem : (ms : List (RelayPacket K)) → All IsOutgoing ms → All IsItem (items ms)
  items-IsItem [] os = tt
  items-IsItem (m ∷ ms) (o, os) = (relay_bytes-Carries m o, items-IsItem ms os)

handle_sever_events-relays :
    {K C : Type 0} (ms : List (RelayPacket K)) (enqueued : List (Packet K C))
    → handle_sever_events ms enqueued ≡ enqueued ++ relays ms
unfolding handle_sever_events
handle_sever_events-relays [] enqueued = rw append-nil
handle_sever_events-relays (m ∷ ms) enqueued =
    handle_sever_events-relays ms (enqueued ++ (msg_relay m ∷ []))
    ∙ append_assoc enqueued (msg_relay m ∷ []) (relays ms)

module _ {K : Type 0} ⦃ks : Ksuids K⦄ where
  -- Messages have been put into the channel `out` of a logic server, each for any gateway, connected,
  -- closed or unknown, in a packet of fewer than 2 ^ 32 bytes; every gateway in the server's map has a
  -- connection, and connections take every write; identifiers are read back from their bytes; the
  -- connection of the gateway `k` is started, nothing has been written on it, and `k` can write its
  -- pongs. No message makes writeHandler panic; and the read loop of the gateway `k`, and the proxy if
  -- Receive of the gateway has been set as its receiver, put exactly the packets for `k` into the
  -- gateway's queue, in their order, and none of those for the others.
  pub handle_sever_events-write_handler :
      {C V : Type 0} (near : NetConn Bytes) (far : NetConn V) (pong : V → V) (k : K)
      (ms : List (K × RelayPacket K)) (lg : LgServer K Bytes) (gs : List (K × Server K Bytes))
      (s : Server K Bytes) (p : Proxy K (List (RelayPacket K))) (v : V)
      → IsOpen near
      → ((u : V) → write_control ⦃c = far⦄ OpCode.pong [] u ≡ done tt (pong u))
      → KsuidLaws ks
      → lg.gateways ≡ some gs
      → lookup ks.same k gs ≡ some s
      → s.state ≡ server_started
      → s.conn ≡ some []
      → AreConnected gs
      → AreOutgoing ms
      → (lg' : LgServer K Bytes) × (out : Bytes) × (relay_in : List (RelayPacket K))
        × (write_handler ⦃c = near⦄ ms lg ≡ some lg')
        × (gateway k lg' ≡ some (record s { conn = some out }))
        × (handle_logic_server_msg
              (Stream.read_handler ⦃c = far⦄ out v).messages
              (set_receiver gateway_receive p)
              []
            ≡ some relay_in)
        × (handle_sever_events {C = C} relay_in [] ≡ relays (messages_to k ms))
  unfolding set_receiver receive
  handle_sever_events-write_handler near far pong k ms lg gs s p v is_open writable laws there known
        is_started has all outgoing =
      let pkts = messages_to k ms in
      let os = messages_to-IsOutgoing k ms outgoing in
      let (lg', writes, found) =
        write_handler-written ⦃c = near⦄ k ms lg gs s [] is_open laws there known is_started has all
          outgoing in
      (
        lg',
        stream (messages (all_bytes pkts)),
        pkts,
        writes,
        found,
        rw (read_handler-all_bytes far pong pkts v writable laws os) (
            rw (sym (payloads-items pkts)) (
              handle_kept laws (items pkts) _ [] refl (items-IsItem pkts os)
              ∙ ap some (packets-items pkts))),
        handle_sever_events-relays pkts [],
      )
