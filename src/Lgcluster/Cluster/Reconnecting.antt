-- ===== src/Lgcluster/Cluster/Reconnecting.antt =====
-- What starting a cluster and losing a server do with the map of servers, and under which identifier a
-- gateway connects.
use fim.Base.{
  ℕ, ◌+◌, ◌^◌, ◌<◌, ◌≡◌, refl, ◌∙◌, inl, inr, Bool, true, false, Option, none, some, List, [], ◌∷◌,
  ◌++◌, arith, ◌==◌, Bool-cases, Option-cases, suc-eq-zero, length, Outcome, done, fail, panic,
  Writer,
}
use fim.Base.Decimal.{itoa}
use fim.Base.GoMap.{lookup}
use fim.Wire.Buffer.{Bytes, buffer}
use fim.Wire.Ksuid.{Ksuids, KsuidLaws, parse_or_nil}
use fim.Peer.Handshake.{Conn, HandshakeReq, answer, upgrade, code_handshake_ok}
use fim.Peer.Handshake
use fim.Peer.Handshake.Reply.{Fits}
use fim.Peer.Handshake.Agreement.{connect_server-upgrade}
use fim.Peer.Server.{Server, new_server, side_client, server_started, restart}
use fim.Peer.Server.Lifecycle.{start-closed}
use fim.Lgcluster.Cluster.{Cluster, Range, IsRange}
use fim.Lgcluster.Cluster.Connecting.{
  type_gate, ServerEntry, address, build_server, attempts_of, connect_all, init, start, reconnect,
  after_restart, handle_connection_close,
}
use fim.Lgcluster.Cluster.Keeping.{
  IsKept, add_server-IsKept, del_server-IsKept, connect_server-IsKept,
}

module _ {K W : Type 0} ⦃ks : Ksuids K⦄ ⦃w : Writer W⦄ (r : Range K) (range : IsRange r) where
  abbrev Kept : Cluster K (Server K W) → Type 0
  Kept c = IsKept ks.same c

  connect_all-Kept :
      (servers : List (ServerEntry × List (Option (Conn W)))) (c : Cluster K (Server K W))
      → Kept c
      → Kept (connect_all r servers c)
  unfolding connect_all
  connect_all-Kept [] c kept = kept
  connect_all-Kept ((sr, dials) ∷ rest) c kept =
      connect_all-Kept rest _
        (connect_server-IsKept ks.same r (attempts_of c.gwid sr dials) c range kept)

  after_restart-Kept :
      (late : Bool) (c : Cluster K (Server K W)) (more : Server K W → Cluster K (Server K W))
      (o : Outcome (Server K W) (Unit {0}))
      → Kept c
      → ((p : Server K W) → Kept (more p))
      → Kept (after_restart r late c more o)
  after_restart-Kept late c more (done _ p) kept rest =
      add_server-IsKept ks.same r p.id p c range kept
  after_restart-Kept true c more (fail _ p) kept rest = kept
  after_restart-Kept false c more (fail _ p) kept rest = rest p
  after_restart-Kept late c more panic kept rest = kept

  reconnect-Kept :
      (ticks : List (Option (Conn W) × Bool)) (p : Server K W) (c : Cluster K (Server K W))
      → Kept c
      → Kept (reconnect r ticks p c)
  unfolding reconnect
  reconnect-Kept [] p c kept = kept
  reconnect-Kept ((dialled, late) ∷ ticks) p c kept =
      elim (Option-cases (lookup ks.same p.id c.servers)) [
        | inr (old, e) ↦ rw (e, reconnect) kept
        | inl e ↦
            rw (e, reconnect)
              (after_restart-Kept late c (λ p'. reconnect r ticks p' c) (restart dialled p) kept
                (λ p'. reconnect-Kept ticks p' c kept))
      ]

  init-Kept :
      (servers : Option (List (ServerEntry × List (Option (Conn W))))) (c : Cluster K (Server K W))
      → Kept c
      → Kept (init r servers c)
  unfolding init
  init-Kept none c kept = kept
  init-Kept (some servers) c kept = connect_all-Kept servers c kept

  -- A cluster whose map holds no identifier twice and whose slice holds the map's keys: that stays so
  -- when it is started, whatever servers the name service gives and whatever their dials, and when a
  -- connection is closed and reconnected, whatever the dials of the ticks.
  pub start-reconnect_keeps :
      (servers : Option (List (ServerEntry × List (Option (Conn W)))))
      (ticks : List (Option (Conn W) × Bool)) (p : Server K W) (c : Cluster K (Server K W))
      → IsKept ks.same c
      → IsKept ks.same (start r servers c) × IsKept ks.same (handle_connection_close r ticks p c)
  unfolding start handle_connection_close
  start-reconnect_keeps servers ticks p c kept =
      let kept' : Kept (record c { started = 1 }) = record {
        distinct = kept.distinct;
        ids = kept.ids;
      } in
      (
        (elim (Bool-cases (c.started == 0)) [
          | inl e ↦ rw e (init-Kept servers (record c { started = 1 }) kept')
          | inr e ↦ rw e kept
        ]),
        reconnect-Kept ticks p _ (del_server-IsKept ks.same r p.id c range kept),
      )

length-colon : (ip port : Bytes) → (length (ip ++ (b':' ∷ port)) == 0) ≡ false
length-colon [] port = suc-eq-zero (length port)
length-colon (c ∷ cs) port = suc-eq-zero (length (cs ++ (b':' ∷ port)))

module _ {K : Type 0} ⦃ks : Ksuids K⦄ where
  -- The server that buildServer makes on a connection with these bytes.
  abbrev built : ServerEntry → Bytes → Server K Bytes
  built sr out = record {
    id = parse_or_nil sr.id;
    meta = type_gate;
    addr = address sr;
    conn = some out;
    side = side_client;
    state = server_started;
    closes = 0;
    disconnects = 0;
  }

  build_server-built :
      (gw_id : K) (sr : ServerEntry) (conn conn' : Conn Bytes)
      → Handshake.connect_server gw_id type_gate conn ≡ done tt conn'
      → build_server gw_id sr (some conn) ≡ some (built sr conn'.out)
  unfolding build_server new_server
  build_server-built gw_id sr conn conn' e = rw (
    e,
    build_server,
    start-closed conn'.out side_client
        (record (new_server (parse_or_nil sr.id) type_gate) { addr = address sr }) refl,
  )

  restart-built :
      (sr : ServerEntry) (out : Bytes) (conn conn' : Conn Bytes)
      → Handshake.connect_server {K = K} (parse_or_nil sr.id) type_gate conn ≡ done tt conn'
      → restart (some conn) (built sr out) ≡ done tt (built sr conn'.out)
  unfolding restart
  restart-built sr out conn conn' e = rw (
    length-colon sr.ip (itoa sr.port),
    e,
    start-closed conn'.out side_client (record (built sr out) { state = 0 }) refl,
  )

module _ {K : Type 0} ⦃ks : Ksuids K⦄ (laws : KsuidLaws ks) where
  ok-Fits : Fits (answer (code_handshake_ok, none))
  ok-Fits = record { code = omega arith; error = omega arith }

  -- What a server accepts under `h`, and the bytes that both sides write.
  accepts :
      (on_handshake : HandshakeReq K → ℕ × Option Bytes) (h : HandshakeReq K)
      (to_client to_server : Bytes)
      → length h.meta + ks.size + 4 < 2 ^ 32
      → on_handshake h ≡ (code_handshake_ok, none)
      → (request reply : Bytes) × (upgrade on_handshake
            (record { incoming = request ++ to_server; out = [] })
          ≡ done h (record { incoming = to_server; out = reply }))
        × (Handshake.connect_server h.sid h.meta
              (record { incoming = reply ++ to_client; out = [] })
            ≡ done tt (record { incoming = to_client; out = request }))
  accepts on_handshake h to_client to_server fits ok =
      let (request, reply, upgrades, connects) =
        connect_server-upgrade on_handshake h to_client to_server laws fits (rw ok ok-Fits) in
      (request, reply, upgrades, connects ∙ rw ok)

  -- A logic server that accepts every gateway, on fresh connections, with identifiers that are read back:
  -- buildServer gives a started server, and the bytes that it writes on its connection are a request
  -- that the logic server reads under the gateway's identifier; Restart of that server succeeds too,
  -- but the bytes that it writes on the new connection are a request that the logic server reads under
  -- the logic server's own identifier, the one that the name service gives.
  pub build_server-restart :
      (on_handshake : HandshakeReq K → ℕ × Option Bytes) (gw_id : K) (sr : ServerEntry)
      (to_client to_server : Bytes)
      → ks.size < 2 ^ 31
      → ((h : HandshakeReq K) → on_handshake h ≡ (code_handshake_ok, none))
      → (request reply again reply_again : Bytes) × (p p' : Server K Bytes) × (upgrade on_handshake
            (record { incoming = request ++ to_server; out = [] })
          ≡ done
              (record { sid = gw_id; meta = type_gate })
              (record { incoming = to_server; out = reply }))
        × (build_server gw_id sr (some (record { incoming = reply ++ to_client; out = [] }))
            ≡ some p)
        × (p.conn ≡ some request)
        × (upgrade on_handshake (record { incoming = again ++ to_server; out = [] })
            ≡ done
                (record { sid = parse_or_nil sr.id; meta = type_gate })
                (record { incoming = to_server; out = reply_again }))
        × (restart (some (record { incoming = reply_again ++ to_client; out = [] })) p ≡ done tt p')
        × (p'.conn ≡ some again)
  build_server-restart on_handshake gw_id sr to_client to_server small accepting =
      let gw : HandshakeReq K = record { sid = gw_id; meta = type_gate } in
      let lg : HandshakeReq K = record { sid = parse_or_nil sr.id; meta = type_gate } in
      let (request, reply, upgrades, connects) =
        accepts on_handshake gw to_client to_server (omega (arith, small)) (accepting gw) in
      let (again, reply_again, upgrades', connects') =
        accepts on_handshake lg to_client to_server (omega (arith, small)) (accepting lg) in
      (
        request,
        reply,
        again,
        reply_again,
        built sr request,
        built sr again,
        upgrades,
        build_server-built gw_id sr _ _ connects,
        refl,
        upgrades',
        restart-built sr request _ _ connects',
        refl,
      )
