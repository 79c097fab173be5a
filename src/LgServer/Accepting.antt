-- ===== src/LgServer/Accepting.antt =====
-- What becomes of a gateway that connects under an identifier that is taken.
use fim.Base.{
  ◌+◌, ◌^◌, ◌<◌, ◌≡◌, refl, ap, ◌∙◌, some, List, [], ◌++◌, arith, length, handshake_failed, done,
  fail,
}
use fim.Base.GoMap.{lookup, insert}
use fim.Wire.Buffer.{Bytes, buffer}
use fim.Wire.Ksuid.{Ksuids, KsuidLaws}
use fim.Peer.Handshake.{HandshakeReq, Conn, answer, upgrade, connect_server}
use fim.Peer.Handshake.Reply.{Fits, accepted}
use fim.Peer.Handshake.Agreement.{connect_server-upgrade}
use fim.Peer.Server.{Server, side_server, server_started, new_server}
use fim.Peer.Server.Lifecycle.{start-closed}
use fim.LgServer.{LgServer, existed, gateway, on_handshake, accept, gateway_connected}

refusal-Fits : Fits (answer (303, some existed))
refusal-Fits = record { code = omega arith; error = omega arith }

-- The server that is made of a request.
abbrev pub registered : {K : Type 0} → HandshakeReq K → Bytes → Bytes → Server K Bytes
registered h remote out = record (new_server h.sid h.meta) {
  addr = remote;
  conn = some out;
  side = side_server;
  state = server_started;
}

module _ {K : Type 0} ⦃ks : Ksuids K⦄ where
  on_handshake-taken :
      (lg : LgServer K Bytes) (old : Server K Bytes) (h : HandshakeReq K)
      → gateway h.sid lg ≡ some old
      → on_handshake lg h ≡ (303, some existed)
  unfolding on_handshake
  on_handshake-taken lg old h e = rw (e, on_handshake)

  accept-upgrade :
      (lg : LgServer K Bytes) (h : HandshakeReq K) (remote : Bytes) (conn conn' : Conn Bytes)
      → upgrade (on_handshake lg) conn ≡ done h conn'
      → accept remote conn lg ≡ some (registered h remote conn'.out)
  unfolding accept
  accept-upgrade lg h remote conn conn' e =
      rw (e, accept)
        (rw (
          start-closed conn'.out side_server (record (new_server h.sid h.meta) { addr = remote })
            (unfold new_server in refl)))

  gateway_connected-registered :
      (lg : LgServer K Bytes) (h : HandshakeReq K) (remote out : Bytes)
      (m : List (K × Server K Bytes))
      → lg.gateways ≡ some m
      → gateway_connected (registered h remote out) lg
        ≡ some (record lg { gateways = some (insert ks.same h.sid (registered h remote out) m) })
  unfolding gateway_connected new_server
  gateway_connected-registered lg h remote out m e = rw (e, gateway_connected)

  -- A gateway asks for a connection under an identifier that another connection has, with requests
  -- and answers that fit their frames: its ConnectServer fails, but the server goes on with the
  -- connection, which takes the place of the other one in the map of gateways.
  pub accept_duplicate :
      (lg : LgServer K Bytes) (old : Server K Bytes) (h : HandshakeReq K)
      (m : List (K × Server K Bytes)) (remote to_client to_server : Bytes)
      → KsuidLaws ks
      → length h.meta + ks.size + 4 < 2 ^ 32
      → lg.gateways ≡ some m
      → lookup ks.same h.sid m ≡ some old
      → (request reply : Bytes) × (connect_server h.sid h.meta
            (record { incoming = reply ++ to_client; out = [] })
          ≡ fail handshake_failed (record { incoming = to_client; out = request }))
        × (accept remote (record { incoming = request ++ to_server; out = [] }) lg
            ≡ some (registered h remote reply))
        × (gateway_connected (registered h remote reply) lg
            ≡ some (record lg {
              gateways = some (insert ks.same h.sid (registered h remote reply) m);
            }))
  accept_duplicate lg old h m remote to_client to_server laws fits here known =
      let taken = on_handshake-taken lg old h (rw here known) in
      let (request, reply, upgrades, connects) =
        connect_server-upgrade (on_handshake lg) h to_client to_server laws fits
          (rw taken refusal-Fits) in
      (
        request,
        reply,
        connects
            ∙ ap (λ a. accepted (answer a) (record { incoming = to_client; out = request })) taken,
        accept-upgrade lg h remote _ _ upgrades,
        gateway_connected-registered lg h remote reply m here,
      )
