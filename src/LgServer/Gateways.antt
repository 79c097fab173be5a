-- ===== src/LgServer/Gateways.antt =====
-- server/hub/hub.go: the loops over the gateways that connect and disconnect, over the messages for
-- them, and over the connections that the listener accepts.
use fim.Base.{
  ◌≡◌, refl, ap, ◌∙◌, ite, if_pos, if_neg, Option, none, some, List, [], ◌∷◌, ◌==◌, if◌then◌else◌,
  Writer,
}
use fim.Base.GoMap.{
  lookup, insert, delete, Distinct, insert-Distinct, delete-Distinct, lookup-insert_self,
  lookup-insert_ne, lookup-delete_self, lookup-delete_ne,
}
use fim.Wire.Buffer.{Bytes}
use fim.Wire.Ksuid.{Ksuids}
use fim.Wire.Relay.{RelayPacket}
use fim.Peer.Handshake.{Conn}
use fim.Peer.Stream.{NetConn}
use fim.Peer.Server.{Server}
use fim.LgServer.{LgServer, started, gateway_connected, gateway_disconnected, accept, write_message}

-- What comes out of the channels `connect` and OnDisconnect.
pub data GatewayEvent (K W : Type 0) : Type 0 where
  connected disconnected : Server K W → GatewayEvent K W

-- What a round of the listener's loop does.
pub data ListenRound (K W : Type 0) : Type 0 where
  returns next : ListenRound K W
  connects : Server K W → ListenRound K W

module _ {K W : Type 0} ⦃ks : Ksuids K⦄ where
  gateway_event : GatewayEvent K W → LgServer K W → Option (LgServer K W)
  gateway_event (connected p) lg = gateway_connected p lg
  gateway_event (disconnected p) lg = some (gateway_disconnected p lg)

  -- gatewayHandler on the events that come; `none` is a panic.
  pub gateway_handler : List (GatewayEvent K W) → LgServer K W → Option (LgServer K W)
  unfolding gateway_event
  gateway_handler [] lg = some lg
  gateway_handler (e ∷ es) lg = elim (gateway_event e lg) [
    | none ↦ none
    | some lg' ↦ gateway_handler es lg'
  ]

  -- writeHandler on the messages of `out`.
  unfoldable pub write_handler :
      ⦃c : NetConn W⦄ → List (K × RelayPacket K) → LgServer K W → Option (LgServer K W)
  write_handler [] lg = some lg
  write_handler ((server_id, payload) ∷ rest) lg = elim (write_message server_id payload lg) [
    | none ↦ none
    | some lg' ↦ write_handler rest lg'
  ]

  -- A round of listen: the error of Accept, or a connection and its remote address.
  pub listen_round : ⦃w : Writer W⦄ → Option (Bytes × Conn W) → LgServer K W → ListenRound K W
  listen_round accepted lg =
      if lg.state == started
      then elim accepted [
        | none ↦ next
        | some (remote, conn) ↦ elim (accept remote conn lg) [
          | none ↦ next
          | some server ↦ connects server
        ]
      ]
      else returns

  -- What the last event of an identifier leaves under it.
  abbrev pub last_event : List (GatewayEvent K W) → K → Option (Server K W) → Option (Server K W)
  last_event [] k now = now
  last_event (connected p ∷ es) k now = last_event es k (ite (ks.same p.id k) (some p) now)
  last_event (disconnected p ∷ es) k now = last_event es k (ite (ks.same p.id k) none now)

  lookup-insert :
      (i k : K) (p : Server K W) (m : List (K × Server K W))
      → lookup ks.same k (insert ks.same i p m) ≡ ite (ks.same i k) (some p) (lookup ks.same k m)
  lookup-insert i k p m = elim (ks.same i k) [
    | yes e ↦ rw (if_pos _ e) (rw (← e) (lookup-insert_self ks.same i p m))
    | no n ↦ rw (if_neg _ n) (lookup-insert_ne ks.same i k p m n)
  ]

  lookup-delete :
      (i k : K) (m : List (K × Server K W))
      → Distinct ks.same m
      → lookup ks.same k (delete ks.same i m) ≡ ite (ks.same i k) none (lookup ks.same k m)
  lookup-delete i k m d = elim (ks.same i k) [
    | yes e ↦ rw (if_pos _ e) (rw (← e) (lookup-delete_self ks.same i m d))
    | no n ↦ rw (if_neg _ n) (lookup-delete_ne ks.same i k m n)
  ]

  -- The map of a logic server, with no identifier twice.
  pub record Holds (m : List (K × Server K W)) (lg : LgServer K W) : Type 0 where
    pub there : lg.gateways ≡ some m
    pub distinct : Distinct ks.same m

  -- Events on a logic server whose map is there: no event makes gatewayHandler panic, nothing but the
  -- map changes, and under each identifier it has what the last event of that identifier says: the
  -- connection, or nothing after a disconnection, whichever connection has ended; without an event
  -- it has what it had.
  pub gateway_handler-last_event :
      (es : List (GatewayEvent K W)) (lg : LgServer K W) (m : List (K × Server K W))
      → Holds m lg
      → (m' : List (K × Server K W)) × Distinct ks.same m'
        × (gateway_handler es lg ≡ some (record lg { gateways = some m' }))
        × ((k : K) → lookup ks.same k m' ≡ last_event es k (lookup ks.same k m))
  unfolding gateway_handler gateway_event gateway_connected gateway_disconnected
  gateway_handler-last_event [] lg m h =
      (m, h.distinct, ap (λ x. some (record lg { gateways = x })) h.there, λ k. refl)
  gateway_handler-last_event (connected p ∷ es) lg m h =
      let lg' = record lg { gateways = some (insert ks.same p.id p m) } in
      let (m', d, runs, at) =
        gateway_handler-last_event es lg' (insert ks.same p.id p m)
          (record { there = refl; distinct = insert-Distinct ks.same p.id p m h.distinct }) in
      (
        m',
        d,
        rw (h.there, gateway_handler, gateway_event) runs,
        λ k. at k ∙ ap (last_event es k) (lookup-insert p.id k p m),
      )
  gateway_handler-last_event (disconnected p ∷ es) lg m h =
      let lg' = record lg { gateways = some (delete ks.same p.id m) } in
      let (m', d, runs, at) =
        gateway_handler-last_event es lg' (delete ks.same p.id m)
          (record { there = refl; distinct = delete-Distinct ks.same p.id m h.distinct }) in
      (
        m',
        d,
        rw (h.there, gateway_handler, gateway_event) runs,
        λ k. at k ∙ ap (last_event es k) (lookup-delete p.id k m h.distinct),
      )
