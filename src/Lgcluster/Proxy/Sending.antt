-- ===== src/Lgcluster/Proxy/Sending.antt =====
-- What becomes of the packets of a gateway when there is one logic server.
use fim.Base.{ℕ, ◌≡◌, some, done}
use fim.Base.GoMap.{insert-one}
use fim.Wire.Buffer.{Bytes}
use fim.Wire.Ksuid.{Ksuids}
use fim.Wire.Message.{Message}
use fim.Wire.Relay.{RelayPacket}
use fim.Wire.Relay
use fim.Peer.Stream.{NetConn}
use fim.Peer.Server.{Server, push}
use fim.Lgcluster.Cluster.Single.{one_server, get-one_server}
use fim.Lgcluster.Proxy.{handle_client_message, push_bytes}

module _ {K W : Type 0} ⦃ks : Ksuids K⦄ ⦃c : NetConn W⦄ where
  pub handle_client_message-push :
      (m : RelayPacket K) (p : Message) (out : Bytes) (gwid : K) (started : ℕ) (s s' : Server K W)
      → m.payload ≡ some p
      → Relay.bytes m ≡ some out
      → push out s ≡ done tt s'
      → s'.id ≡ s.id
      → handle_client_message m (one_server gwid started s.id s)
        ≡ some (one_server gwid started s.id s')
  unfolding handle_client_message push_bytes
  handle_client_message-push m p out gwid started s s' has writes pushes same =
      rw
        (has, handle_client_message, get-one_server ks.same gwid started s.id s, writes, push_bytes)
        (rw (pushes, push_bytes) (rw same (rw insert-one)))
