-- ===== src/Routes/Sending.antt =====
-- The packets that the proxy writes to its logic server.
use fim.Base.{ℕ, ◌≡◌, refl, ap, ◌∙◌, some, List, [], ◌∷◌, ◌++◌, append-nil, append_assoc, All}
use fim.Wire.Buffer.{Bytes}
use fim.Wire.Ksuid.{Ksuids, KsuidLaws}
use fim.Wire.Relay.{RelayPacket}
use fim.Peer.OpCode
use fim.Peer.Frame.RoundTrip.{frame_bytes}
use fim.Peer.Stream.{NetConn}
use fim.Peer.Stream.Delivery.{stream}
use fim.Peer.Server.{Server, server_started}
use fim.Peer.Server.Delivery.{IsOpen, messages, push-frame}
use fim.Lgcluster.Cluster.Single.{one_server}
use fim.Lgcluster.Proxy.{handle_client_messages}
use fim.Lgcluster.Proxy.Sending.{handle_client_message-push}
use fim.Routes.Link.{IsOutgoing, relay_bytes, all_bytes, bytes-relay_bytes, relay_bytes-IsShort}

module _ {K : Type 0} ⦃ks : Ksuids K⦄ ⦃c : NetConn Bytes⦄ where
  -- The server behind the packets.
  abbrev pub written : List (RelayPacket K) → Bytes → Server K Bytes → Server K Bytes
  written ms w s = record s { conn = some (w ++ stream (messages (all_bytes ms))) }

  pub handle_client_messages-written :
      (ms : List (RelayPacket K)) (w : Bytes) (gwid : K) (started : ℕ) (s : Server K Bytes)
      → IsOpen c
      → KsuidLaws ks
      → s.state ≡ server_started
      → s.conn ≡ some w
      → All IsOutgoing ms
      → handle_client_messages ms (one_server gwid started s.id s)
        ≡ some (one_server gwid started s.id (written ms w s))
  unfolding handle_client_messages
  handle_client_messages-written [] w gwid started s is_open laws is_started there o =
      rw append-nil (ap (λ x. some (one_server gwid started s.id (record s { conn = x }))) there)
  handle_client_messages-written (m ∷ ms) w gwid started s is_open laws is_started there (o, os) =
      let out = relay_bytes m in
      let s' = record s { conn = some (w ++ frame_bytes OpCode.message out) } in
      rw
        (
          handle_client_message-push m o.message out gwid started s s' o.sendable.has_payload
              (bytes-relay_bytes m o)
              (push-frame is_open out w s is_started there (relay_bytes-IsShort laws m o)) refl,
          handle_client_messages,
        )
        (handle_client_messages-written ms (w ++ frame_bytes OpCode.message out) gwid started s'
            is_open laws is_started refl os
          ∙ ap (λ x. some (one_server gwid started s.id (record s { conn = some x })))
              (append_assoc w (frame_bytes OpCode.message out) (stream (messages (all_bytes ms)))))
