-- ===== src/Routes/Uplink.antt =====
-- Messages of clients, on their way to the handlers of a logic server.
use fim.Base.{
  ℕ, ◌+◌, ◌*◌, ◌^◌, ◌<◌, ◌≡◌, refl, ap, subst, ◌∙◌, inl, inr, true, false, none, some, List, [],
  ◌∷◌, ◌++◌, append-nil, append_assoc, arith, if◌then◌else◌, Bool-cases, Option-cases, length, All,
  done,
}
use fim.Wire.Buffer.{Bytes}
use fim.Wire.Ksuid.{Ksuids, KsuidLaws}
use fim.Wire.Header
use fim.Wire.Message.{Message}
use fim.Wire.Message.RoundTrip.{IsFramed}
use fim.Wire.Protocol.{is_protocol, get_empty_message}
use fim.Wire.Protocol.Known.{is_protocol-get_empty_message}
use fim.Wire.Relay.{RelayPacket, new_relay_message}
use fim.Wire.Relay.RoundTrip.{decode-Carries}
use fim.Peer.Client.{ClientAttrs, WsConn}
use fim.Peer.OpCode
use fim.Peer.Stream.{NetConn, write_control}
use fim.Peer.Stream
use fim.Peer.Stream.Delivery.{stream}
use fim.Peer.Server.{Server, server_started}
use fim.Peer.Server.Delivery.{IsOpen, messages}
use fim.Lgcluster.Cluster.Single.{one_server}
use fim.Lgcluster.Proxy.{handle_client_messages}
use fim.Gateway.Hub.{Gateway, Packet, handle_client_message}
use fim.Gateway.Hub.Events.{Event, on_msg, handle_event, handle_client_events}
use fim.LgServer.{LgServer}
use fim.LgServer
use fim.Handler.{HandlerConfig, Job, Grpool, Dispatched, handler_of, handle_in_message}
use fim.Handler.Pools.{HasPayload, job_of, jobs_of, IsDispatched, handle_in_message-IsDispatched}
use fim.Routes.Sending.{handle_client_messages-written}
use fim.Routes.Link.{
  IsOutgoing, relay_bytes, all_bytes, relay_bytes-Carries, read_handler-all_bytes,
}

-- A message of a client, with the identifier and the attributes of its connection.
abbrev pub ClientMessage : Type 0 → Type 0
ClientMessage K = K × ClientAttrs × Message

handler_of-is_protocol : (pid : ℕ) → is_protocol pid ≡ false → handler_of pid ≡ none
unfolding handler_of get_empty_message
handler_of-is_protocol pid h = ground (arith, h, is_protocol-get_empty_message pid)

module _ {K : Type 0} where
  abbrev pub events : {C : Type 0} → List (ClientMessage K) → List (Event K C)
  events [] = []
  events ((id, attrs, m) ∷ ms) = on_msg id attrs m ∷ events ms

  -- What a gateway makes of a message.
  abbrev pub packet_of : K → ClientMessage K → RelayPacket K
  packet_of gateway_id (id, attrs, m) = record {
    uuid = id;
    username = attrs.username;
    device = attrs.device;
    location = gateway_id;
    receivers = [];
    payload = some m;
  }

  -- The messages of the protocols that are known, as packets.
  abbrev pub known : K → List (ClientMessage K) → List (RelayPacket K)
  known gateway_id [] = []
  known gateway_id (c ∷ cs) =
      let rest = known gateway_id cs in
      if is_protocol (Header.get_pid c.2.header) then packet_of gateway_id c ∷ rest else rest

  -- The jobs of the messages whose protocols have a handler.
  abbrev pub jobs_for : K → List (ClientMessage K) → List (Job K)
  jobs_for gateway_id [] = []
  jobs_for gateway_id (c ∷ cs) = elim (handler_of (Header.get_pid c.2.header)) [
    | none ↦ jobs_for gateway_id cs
    | some p ↦ (p, packet_of gateway_id c) ∷ jobs_for gateway_id cs
  ]

  known-HasPayload : (g : K) (ms : List (ClientMessage K)) → All HasPayload (known g ms)
  known-HasPayload g [] = tt
  known-HasPayload g (c ∷ ms) = elim (Bool-cases (is_protocol (Header.get_pid c.2.header))) [
    | inl e ↦ rw e ((c.2, refl), known-HasPayload g ms)
    | inr e ↦ rw e (known-HasPayload g ms)
  ]

  jobs_of-known : (g : K) (ms : List (ClientMessage K)) → jobs_of (known g ms) ≡ jobs_for g ms
  jobs_of-known g [] = refl
  jobs_of-known g (c ∷ ms) = elim (Bool-cases (is_protocol (Header.get_pid c.2.header))) [
    | inl e ↦ elim (Option-cases (handler_of (Header.get_pid c.2.header))) [
      | inl n ↦ rw (e, n, job_of, jobs_for) (jobs_of-known g ms)
      | inr (p, h) ↦
          rw (e, h, job_of, jobs_for) (ap (λ js. (p, packet_of g c) ∷ js) (jobs_of-known g ms))
    ]
    | inr e ↦
        rw (e, handler_of-is_protocol (Header.get_pid c.2.header) e, jobs_for) (jobs_of-known g ms)
  ]

module _ {K : Type 0} ⦃ks : Ksuids K⦄ where
  -- A message that counts its bytes, and whose packet fits a frame.
  pub record IsUplink (c : ClientMessage K) : Type 0 where
    pub framed : IsFramed c.2
    pub fits : 2 * ks.size + length c.1.username + length c.2.payload + 19 < 2 ^ 32

  packet_of-IsOutgoing : (g : K) (c : ClientMessage K) → IsUplink c → IsOutgoing (packet_of g c)
  packet_of-IsOutgoing g c u = record {
    message = c.2;
    sendable = record {
      has_payload = refl;
      framed = u.framed;
      username_fits = omega (arith, u.fits);
      receivers_fit = omega arith;
    };
    fits = omega (arith, u.fits);
  }

  known-IsOutgoing :
      (g : K) (ms : List (ClientMessage K)) → All IsUplink ms → All IsOutgoing (known g ms)
  known-IsOutgoing g [] us = tt
  known-IsOutgoing g (c ∷ ms) (u, us) =
      elim (Bool-cases (is_protocol (Header.get_pid c.2.header))) [
        | inl e ↦ rw e (packet_of-IsOutgoing g c u, known-IsOutgoing g ms us)
        | inr e ↦ rw e (known-IsOutgoing g ms us)
      ]

  read_handler-handled :
      {W : Type 0} (ms : List (RelayPacket K)) (lg : LgServer K W)
      → KsuidLaws ks
      → All IsOutgoing ms
      → LgServer.read_handler (all_bytes ms) lg ≡ record lg { handled = lg.handled ++ ms }
  unfolding LgServer.read_handler
  read_handler-handled [] lg laws os = rw append-nil
  read_handler-handled (m ∷ ms) lg laws (o, os) =
      rw (decode-Carries laws (relay_bytes m) m (relay_bytes-Carries m o), LgServer.read_handler)
        (read_handler-handled ms (record lg { handled = lg.handled ++ (m ∷ []) }) laws os
          ∙ ap (λ hs. record lg { handled = hs }) (append_assoc lg.handled (m ∷ []) ms))

module _ {K C : Type 0} ⦃ks : Ksuids K⦄ ⦃ws : WsConn C⦄ where
  handle_client_events-known :
      (ms : List (ClientMessage K)) (g : Gateway K C) (enqueued : List (Packet K C))
      → g.has_proxy ≡ true
      → handle_client_events (events ms) g enqueued
        ≡ some (record g { sent = g.sent ++ known g.id ms }, enqueued)
  unfolding handle_client_events handle_event handle_client_message new_relay_message
  handle_client_events-known [] g enqueued there = rw append-nil
  handle_client_events-known (c ∷ ms) g enqueued there =
      elim (Bool-cases (is_protocol (Header.get_pid c.2.header))) [
        | inl e ↦
            rw (e, there, handle_client_events, handle_event)
              (handle_client_events-known ms
                  (record g { has_proxy = true; sent = g.sent ++ (packet_of g.id c ∷ []) }) enqueued
                  refl
                ∙ ap (λ ps. some (record g { has_proxy = true; sent = ps }, enqueued))
                    (append_assoc g.sent (packet_of g.id c ∷ []) (known g.id ms)))
        | inr e ↦
            rw (e, handle_client_events, handle_event)
              (handle_client_events-known ms g enqueued there)
      ]

module _ {K C : Type 0} ⦃ks : Ksuids K⦄ ⦃ws : WsConn C⦄ where
  -- Messages of clients come to a gateway that has sent nothing yet, each with the number of
  -- bytes that its header counts and a packet of fewer than 2 ^ 32 bytes; identifiers are read
  -- back from their bytes; the proxy has one logic server, on a started connection that takes
  -- every write and on which nothing has been written; and the logic server, whose handler has
  -- been sent nothing yet, can write its pongs. The gateway puts nothing into its queue, and its
  -- packets pass the proxy and the connection. From what the read loop at the other end hands
  -- over, handleInMessage, whose pools may block, does not panic: the pools have taken the jobs of
  -- the messages whose protocols have a handler, in the order in which the messages came, each the
  -- pool of its protocol: all of them, or those in front of the first one at which the pool of its
  -- protocol blocks for ever, and there the loop stays.
  pub handle_in_message-handle_client_events :
      {W V P : Type 0} (grpool : Grpool K P) (conf : HandlerConfig) (near : NetConn Bytes)
      (far : NetConn V) (pong : V → V) (ms : List (ClientMessage K)) (g : Gateway K C) (gwid : K)
      (started : ℕ) (s : Server K Bytes) (lg : LgServer K W) (v : V)
      → KsuidLaws ks
      → IsOpen near
      → ((u : V) → write_control ⦃c = far⦄ OpCode.pong [] u ≡ done tt (pong u))
      → g.has_proxy ≡ true
      → g.sent ≡ []
      → s.state ≡ server_started
      → s.conn ≡ some []
      → lg.handled ≡ []
      → All IsUplink ms
      → (g' : Gateway K C) × (out : Bytes) × (d : Dispatched K P) × (handle_client_events
            (events ms)
            g
            []
          ≡ some (g', []))
        × (handle_client_messages ⦃c = near⦄ g'.sent (one_server gwid started s.id s)
            ≡ some (one_server gwid started s.id (record s { conn = some out })))
        × (handle_in_message grpool conf
              (LgServer.read_handler (Stream.read_handler ⦃c = far⦄ out v).messages lg).handled
            ≡ some d)
        × IsDispatched grpool conf (jobs_for g.id ms) d
  handle_in_message-handle_client_events grpool conf near far pong ms g gwid started s lg v laws
        is_open writable has_proxy nothing_sent is_started there nothing us =
      let pkts = known g.id ms in
      let os = known-IsOutgoing g.id ms us in
      let (d, runs, is) =
        handle_in_message-IsDispatched grpool conf pkts (known-HasPayload g.id ms) in
      (
        record g { sent = pkts },
        stream (messages (all_bytes pkts)),
        d,
        handle_client_events-known ms g [] has_proxy
            ∙ ap (λ ps. some (record g { sent = ps ++ pkts }, [])) nothing_sent,
        handle_client_messages-written ⦃c = near⦄ pkts [] gwid started s is_open laws is_started
            there os,
        rw (read_handler-all_bytes far pong pkts v writable laws os)
            (rw (read_handler-handled pkts lg laws os, nothing) runs),
        subst (λ js. IsDispatched grpool conf js d) (jobs_of-known g.id ms) is,
      )
