-- ===== src/Lgcluster/Cluster/Connecting.antt =====
-- lgcluster/cluster.go: how the cluster comes to its servers, and what it does when one of them is
-- gone.
use fim.Base.{
  ℕ, Bool, Option, none, some, List, [], ◌∷◌, ◌++◌, ◌==◌, if◌then◌else◌, Outcome, done, fail, panic,
  Writer,
}
use fim.Base.Decimal.{itoa}
use fim.Base.GoMap.{lookup}
use fim.Wire.Buffer.{Bytes}
use fim.Wire.Ksuid.{Ksuids, parse_or_nil}
use fim.Peer.Handshake.{Conn}
use fim.Peer.Handshake
use fim.Peer.Stream.{NetConn}
use fim.Peer.Server.{Server, new_server, side_client, restart}
use fim.Peer.Server
use fim.Lgcluster.Cluster.{Cluster, Range, add_server, del_server, connect_server}

-- TypeGate
abbrev pub type_gate : Bytes
type_gate = b'g' ∷ b'a' ∷ b't' ∷ b'e' ∷ b'w' ∷ b'a' ∷ b'y' ∷ []

-- A server of the name service: the Id, Ip and Port of wire.LgServer.
pub record ServerEntry : Type 0 where
  pub id : Bytes
  pub ip : Bytes
  pub port : ℕ

-- "%s:%d"
abbrev pub address : ServerEntry → Bytes
address sr = sr.ip ++ (b':' ∷ itoa sr.port)

module _ {K W : Type 0} ⦃ks : Ksuids K⦄ ⦃w : Writer W⦄ where
  -- The state that Start leaves, whose error is thrown away.
  abbrev pub started_server : Outcome (Server K W) (Unit {0}) → Option (Server K W)
  started_server (done _ p) = some p
  started_server (fail _ p) = some p
  started_server panic = none

  -- buildServer on the connection that the dial gives; `none` is an error.
  unfoldable pub build_server : K → ServerEntry → Option (Conn W) → Option (Server K W)
  build_server gw_id sr dialled = elim dialled [
    | none ↦ none
    | some conn ↦ elim (Handshake.connect_server gw_id type_gate conn) [
      | done _ conn' ↦ started_server (
          Server.start (some conn'.out) side_client
            (record (new_server (parse_or_nil sr.id) type_gate) { addr = address sr }))
      | _ ↦ none
    ]
  ]

  -- The attempts of connectServer, one for each dial.
  abbrev pub attempts_of : K → ServerEntry → List (Option (Conn W)) → List (Option (K × Server K W))
  attempts_of gw_id sr [] = []
  attempts_of gw_id sr (d ∷ ds) =
      (elim (build_server gw_id sr d) [ none ↦ none | some p ↦ some (p.id, p) ])
      ∷ attempts_of gw_id sr ds

  -- The loop of init, with the dials of each server.
  unfoldable pub connect_all :
      Range K
      → List (ServerEntry × List (Option (Conn W)))
      → Cluster K (Server K W)
      → Cluster K (Server K W)
  connect_all r [] c = c
  connect_all r ((sr, dials) ∷ rest) c =
      connect_all r rest (connect_server ks.same r (attempts_of c.gwid sr dials) c)

  -- init, with the servers of the name service or its error.
  unfoldable pub init :
      Range K
      → Option (List (ServerEntry × List (Option (Conn W))))
      → Cluster K (Server K W)
      → Cluster K (Server K W)
  init r none c = c
  init r (some servers) c = connect_all r servers c

  -- start up to the goroutine that it starts.
  unfoldable pub start :
      Range K
      → Option (List (ServerEntry × List (Option (Conn W))))
      → Cluster K (Server K W)
      → Cluster K (Server K W)
  start r servers c = if c.started == 0 then init r servers (record c { started = 1 }) else c

  -- A tick of reconnect behind Restart, with whether 30 minutes have passed, and the further ticks. A
  -- panic, which ends the process, leaves the cluster as it is.
  abbrev pub after_restart :
      Range K
      → Bool
      → Cluster K (Server K W)
      → (Server K W → Cluster K (Server K W))
      → Outcome (Server K W) (Unit {0})
      → Cluster K (Server K W)
  after_restart r late c more (done _ p) = add_server ks.same r p.id p c
  after_restart r late c more (fail _ p) = if late then c else more p
  after_restart r late c more panic = c

  -- reconnect, with the dial of Restart at each tick.
  unfoldable pub reconnect :
      Range K
      → List (Option (Conn W) × Bool)
      → Server K W
      → Cluster K (Server K W)
      → Cluster K (Server K W)
  reconnect r [] p c = c
  reconnect r ((dialled, late) ∷ ticks) p c = elim (lookup ks.same p.id c.servers) [
    | some _ ↦ c
    | none ↦ after_restart r late c (λ p'. reconnect r ticks p' c) (restart dialled p)
  ]

  -- A round of handleConnectionClose.
  unfoldable pub handle_connection_close :
      Range K
      → List (Option (Conn W) × Bool)
      → Server K W
      → Cluster K (Server K W)
      → Cluster K (Server K W)
  handle_connection_close r ticks p c = reconnect r ticks p (del_server ks.same r p.id c).1

module _ {K W : Type 0} ⦃ks : Ksuids K⦄ ⦃nc : NetConn W⦄ where
  -- disconnectServer, with the server that it has closed.
  unfoldable pub disconnect_server :
      Range K → K → Cluster K (Server K W) → Cluster K (Server K W) × Option (Server K W)
  disconnect_server r sid c =
      let (server, c') = del_server ks.same r sid c in
      (c', elim server [ none ↦ none | some s ↦ some (Server.close s) ])
