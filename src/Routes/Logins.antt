-- ===== src/Routes/Logins.antt =====
-- What becomes of the packets that a gateway sends when clients come and go.
use fim.Base.{◌≡◌, subst, none, some, List, [], ◌∷◌, ◌++◌, All}
use fim.Wire.Ksuid.{Ksuids}
use fim.Wire.Entity.{Proto}
use fim.Wire.Relay.{RelayPacket, new_empty_relay_message}
use fim.Peer.Client.{WsClient, WsConn}
use fim.Peer.Stream.{NetConn}
use fim.Peer.Server.{Server}
use fim.Lgcluster.Cluster.{Cluster}
use fim.Lgcluster.Proxy.{handle_client_message, handle_client_messages}
use fim.Gateway.Hub.{Gateway, Packet, connect, handle}
use fim.Gateway.Hub.Refinement.{handle_all}
use fim.Gateway.Hub.Hollow.{
  IsHollow, SendsHollow, new_empty_relay_message-IsHollow, handle_all-hollow, handle-connect_sends,
}

module _ {K W : Type 0} ⦃ks : Ksuids K⦄ ⦃c : NetConn W⦄ where
  handle_client_messages-hollow :
      (p : RelayPacket K) (ps : List (RelayPacket K)) (b : Cluster K (Server K W))
      → IsHollow p
      → handle_client_messages (p ∷ ps) b ≡ none
  unfolding handle_client_messages handle_client_message
  handle_client_messages-hollow p ps b h = rw (h, handle_client_messages, handle_client_message)

  handle_client_messages-hollow_last :
      (ps : List (RelayPacket K)) (p : RelayPacket K) (b : Cluster K (Server K W))
      → All IsHollow ps
      → IsHollow p
      → handle_client_messages (ps ++ (p ∷ [])) b ≡ none
  handle_client_messages-hollow_last [] p b hs h = handle_client_messages-hollow p [] b h
  handle_client_messages-hollow_last (q ∷ ps) p b hs h =
      handle_client_messages-hollow q (ps ++ (p ∷ [])) b hs.0

module _ {K C W : Type 0} ⦃ks : Ksuids K⦄ ⦃ws : WsConn C⦄ ⦃n : NetConn W⦄ where
  -- After any packets from a gateway that has sent nothing yet, and a connection of a client behind
  -- them, on none of which a handler panics: the proxy panics on what the gateway has sent, whatever
  -- logic servers there are.
  pub handle_client_messages-handle_all :
      (proto : Proto) (ps : List (Packet K C)) (c : WsClient K C) (g g1 g2 : Gateway K C)
      (b : Cluster K (Server K W))
      → g.sent ≡ []
      → handle_all proto ps g ≡ some g1
      → handle proto (connect c) g1 ≡ some g2
      → handle_client_messages g2.sent b ≡ none
  handle_client_messages-handle_all proto ps c g g1 g2 b nothing runs connects =
      rw (handle-connect_sends proto c g1 g2 connects) (
        handle_client_messages-hollow_last g1.sent (new_empty_relay_message g1.id) b
          (subst SendsHollow runs (handle_all-hollow proto ps g (rw nothing tt)))
          (new_empty_relay_message-IsHollow g1.id))
