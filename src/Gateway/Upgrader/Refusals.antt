-- ===== src/Gateway/Upgrader/Refusals.antt =====
-- Which connections the gateway turns away.
use fim.Base.{
  ℕ, ◌+◌, ◌^◌, ◌<◌, ◌≡◌, refl, subst, ◌≢◌, inl, inr, true, ◌||◌, Option, none, some, List, [], ◌∷◌,
  ◌++◌, arith, ltb, ◌==◌, if◌then◌else◌, Bool-cases, Option-cases, length, Error, token_invalid,
  parameters_empty,
}
use fim.Wire.Buffer.{Bytes}
use fim.Wire.Ksuid.{Ksuids}
use fim.Peer.Client.{ClientAttrs, ClientConf, WsClient, WsConn, new_client, client_started}
use fim.Peer.Client
use fim.Wire.Entity.{Proto}
use fim.Peer.Client.Identity.{NoPanic}
use fim.Gateway.Hub.{Gateway, Packet, connect, push, handle, started}
use fim.Gateway.Hub.Registry.{set_at, registered, apply, drift}
use fim.Gateway.Hub.Balance.{handle-Keeps}
use fim.Gateway.Hub.Counting.{Counted, Keeps}
use fim.Gateway.Upgrader.Parameters.{
  Fields, Parsed, refused, on_request, parse_parameters, no_fields,
}
use fim.Gateway.Upgrader.Laws.{parse_parameters_panics}
use fim.Gateway.Upgrader.Connection.{
  over_limit, Upgraded, Request, Packages, on_headers, remote_or, regist_client, callbacks,
  after_callbacks, upgrade_conn,
}

module _ {K C : Type 0} ⦃ks : Ksuids K⦄ ⦃ws : WsConn C⦄ where
  -- While the counter is the size of the map, and both are far from the range of an int32: the test
  -- turns a connection away exactly when there are more clients than MaxConnections already, so that
  -- one more than that many are let in.
  pub over_limit-Counted :
      (g : Gateway K C) (m : List (K × WsClient K C))
      → Counted 0 g m
      → length m < 2 ^ 31
      → g.conf.max_connections < 2 ^ 31
      → over_limit g ≡ ltb g.conf.max_connections (length m)
  unfolding over_limit
  over_limit-Counted g m v few small = rw v.count (ground arith)

module _ {V : Type 0} (pk : Packages V) where
  -- The callbacks never give what parseParameters returns without an error.
  abbrev Refused : Option (Parsed V) → Type 0
  Refused none = Unit {0}
  Refused (some p) = (e : Error) × (p ≡ refused e)

  parse_parameters-Refused :
      (r_addr : Bytes) (f : Fields)
      → Refused (parse_parameters pk.new_version pk.default_size r_addr f)
  parse_parameters-Refused r_addr f =
      rw (parse_parameters_panics pk.new_version pk.default_size r_addr f)
        (elim (Bool-cases (length f.token == 0)) [
          | inl e ↦ rw e (token_invalid, refl)
          | inr e ↦ elim (Bool-cases ((length f.device == 0) || (length f.ping == 0))) [
            | inl none_given ↦ rw (e, none_given) (parameters_empty, refl)
            | inr given ↦ rw (e, given) tt
          ]
        ])

  callbacks-Refused : (remote_addr : Bytes) (req : Request) → Refused (callbacks pk remote_addr req)
  unfolding callbacks
  callbacks-Refused remote_addr req = elim (Option-cases (on_request pk.parse req.uri no_fields)) [
    | inl e ↦ rw (e, Refused) tt
    | inr (f, e) ↦
        let f' = on_headers req.headers f in
        rw (e, Refused) (parse_parameters-Refused (remote_or remote_addr f'.addr) f')
  ]

module _ {K C V : Type 0} ⦃ks : Ksuids K⦄ ⦃ws : WsConn C⦄ (pk : Packages V) where
  abbrev Refuses : List (Packet K C) → Option (Upgraded K C) → Type 0
  Refuses enqueued none = Unit {0}
  Refuses enqueued (some u) = (u.err ≢ none) × (u.enqueued ≡ enqueued)

  after_callbacks-Refuses :
      (id : K) (conn : C) (g : Gateway K C) (enqueued : List (Packet K C)) (o : Option (Parsed V))
      → Refused pk o
      → Refuses enqueued (elim o [ none ↦ none | some p ↦ after_callbacks pk id conn g enqueued p ])
  unfolding after_callbacks
  after_callbacks-Refuses id conn g enqueued none r = tt
  after_callbacks-Refuses id conn g enqueued (some p) (e, r) = rw r (λ h. cc, refl)

  upgrade_conn-Refuses :
      (id : K) (conn : C) (remote_addr : Bytes) (request : Option Request) (g : Gateway K C)
      (enqueued : List (Packet K C))
      → Refuses enqueued (upgrade_conn pk id conn remote_addr request g enqueued)
  unfolding upgrade_conn
  upgrade_conn-Refuses id conn remote_addr none g enqueued = elim (Bool-cases (over_limit g)) [
    | inl e ↦ rw e (λ h. cc, refl)
    | inr e ↦ rw e (λ h. cc, refl)
  ]
  upgrade_conn-Refuses id conn remote_addr (some req) g enqueued =
      elim (Bool-cases (over_limit g)) [
        | inl e ↦ rw e (λ h. cc, refl)
        | inr e ↦ rw e (
            after_callbacks-Refuses id conn g enqueued (callbacks pk remote_addr req)
              (callbacks-Refused pk remote_addr req))
      ]

  -- Whatever is asked for, upgradeConn that does not panic returns an error and puts nothing into the
  -- gateway's queue.
  pub upgrade_conn_refuses :
      (id : K) (conn : C) (remote_addr : Bytes) (request : Option Request) (g : Gateway K C)
      (enqueued : List (Packet K C)) (u : Upgraded K C)
      → upgrade_conn pk id conn remote_addr request g enqueued ≡ some u
      → (u.err ≢ none) × (u.enqueued ≡ enqueued)
  upgrade_conn_refuses id conn remote_addr request g enqueued u e =
      subst (Refuses enqueued) e (upgrade_conn-Refuses id conn remote_addr request g enqueued)

  -- On a started gateway registClient returns no error and puts one packet behind those in the queue;
  -- the gateway's handler of that packet returns and registers the identifier, and leaves the counter
  -- ahead of the map by what it was, or by one more if the identifier was there.
  pub regist_client-handle :
      (x : ℕ) (proto : Proto) (id : K) (conn : C) (attrs : ClientAttrs) (conf : ClientConf)
      (g : Gateway K C) (m : List (K × WsClient K C)) (enqueued : List (Packet K C))
      → NoPanic ws
      → Counted x g m
      → g.state ≡ started
      → (p : Packet K C) × (regist_client pk id conn attrs conf g enqueued
          ≡ (none, enqueued ++ (p ∷ [])))
        × Keeps
            (set_at id true (registered m))
            (x + (if registered m id then 1 else 0))
            (handle proto p g)
  unfolding regist_client Client.start new_client push apply drift
  regist_client-handle x proto id conn attrs conf g m enqueued safe v is_started =
      let client : WsClient K C = record (new_client pk.merge pk.default_size id conn conf attrs) {
        state = client_started;
      } in
      (connect client, ground arith, handle-Keeps x proto (connect client) g m safe v tt)
