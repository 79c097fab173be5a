-- ===== src/Handler/Pools.antt =====
-- Which jobs the bounded pools of a handler take, and where handleInMessage stops.
use fim.Base.{
  ℕ, ◌≡◌, refl, sym, ap, subst, ◌∙◌, ◌⊎◌, inl, inr, Bool, true, false, Option, none, some, List, [],
  ◌∷◌, ◌++◌, append_assoc, arith, ◌==◌, if◌then◌else◌, Bool-cases, Option-cases, All,
}
use fim.Wire.Header
use fim.Wire.Message.{Message}
use fim.Wire.Relay.{RelayPacket}
use fim.Handler.{
  HandlerConfig, Protocol, login, logout, chat, chat_push_ack, Job, Grpool, HandlePools, pool_of,
  set_pool, Dispatched, pool_for, start_pools, handler_of, dispatch, handle_in_message,
}

abbrev number : Protocol → ℕ
number login = 0
number logout = 1
number chat = 2
number chat_push_ack = 3

abbrev pub is_same : Protocol → Protocol → Bool
is_same p q = number p == number q

module _ {K : Type 0} where
  abbrev pub HasPayload : RelayPacket K → Type 0
  HasPayload msg = (m : Message) × (msg.payload ≡ some m)

  -- A packet as the job of its handler, if its protocol has one.
  abbrev pub job_of : RelayPacket K → List (Job K)
  job_of msg = elim msg.payload [
    | none ↦ []
    | some m ↦ elim (handler_of (Header.get_pid m.header)) [ none ↦ [] | some p ↦ (p, msg) ∷ [] ]
  ]

  abbrev pub jobs_of : List (RelayPacket K) → List (Job K)
  jobs_of [] = []
  jobs_of (msg ∷ rest) = job_of msg ++ jobs_of rest

  job_of-here :
      (msg : RelayPacket K) (rest : List (RelayPacket K)) (m : Message) (p : Protocol)
      → msg.payload ≡ some m
      → handler_of (Header.get_pid m.header) ≡ some p
      → jobs_of (msg ∷ rest) ≡ (p, msg) ∷ jobs_of rest
  job_of-here msg rest m p here e =
      rw (here, job_of, e) (ap (λ o. (p, record msg { payload = o }) ∷ jobs_of rest) here)

  -- The jobs of one protocol.
  abbrev pub jobs_in : Protocol → List (Job K) → List (Job K)
  jobs_in p [] = []
  jobs_in p (j ∷ js) = let rest = jobs_in p js in if is_same p j.0 then j ∷ rest else rest

  jobs_in-append :
      (p : Protocol) (js : List (Job K)) (j : Job K)
      → jobs_in p (js ++ (j ∷ []))
        ≡ (if is_same p j.0 then jobs_in p js ++ (j ∷ []) else jobs_in p js)
  jobs_in-append p [] j = elim (Bool-cases (is_same p j.0)) [ inl e ↦ rw e | inr e ↦ rw e ]
  jobs_in-append p (i ∷ js) j = elim (Bool-cases (is_same p i.0)) [
    | inl e ↦ elim (Bool-cases (is_same p j.0)) [
      | inl f ↦ rw (e, f) (ap (λ l. i ∷ l) (jobs_in-append p js j ∙ rw f))
      | inr f ↦ rw (e, f) (ap (λ l. i ∷ l) (jobs_in-append p js j ∙ rw f))
    ]
    | inr e ↦ rw e (jobs_in-append p js j)
  ]

module _ {K P : Type 0} (g : Grpool K P) where
  -- Jobs that one pool takes one after the other; `none` where a send blocks.
  abbrev pub fill : List (Job K) → P → Option P
  fill [] q = some q
  fill (j ∷ js) q = elim (g.put j q) [ none ↦ none | some r ↦ fill js r ]

  -- The same, of a pool that may have blocked.
  abbrev fill_from : List (Job K) → Option P → Option P
  fill_from js o = elim o [ none ↦ none | some r ↦ fill js r ]

  fill-append :
      (js : List (Job K)) (j : Job K) (q r t : P)
      → fill js q ≡ some r
      → g.put j r ≡ some t
      → fill (js ++ (j ∷ [])) q ≡ some t
  fill-append [] j q r t e f = let here : g.put j q ≡ some t = cc in rw (here, fill)
  fill-append (i ∷ js) j q r t e f = elim (Option-cases (g.put i q)) [
    | inl n ↦ absurd (ground (arith, n, e))
    | inr (x, h) ↦
        rw (h, fill) (fill-append js j x r t (subst (λ o. fill_from js o ≡ some r) h e) f)
  ]

  -- What the loop has done of the jobs that are to be put into the pools: the pools have taken them
  -- in their order, each into the pool of its protocol, all of them, or those in front of one at which
  -- the pool of its protocol blocks for ever.
  pub record IsDispatched (conf : HandlerConfig) (jobs : List (Job K)) (d : Dispatched K P)
      : Type 0 where
    pub left : List (Job K)
    pub taken : jobs ≡ d.jobs ++ left
    pub filled :
        (p : Protocol) → fill (jobs_in p d.jobs) (pool_for g conf p) ≡ some (pool_of p d.pools)
    pub stops :
        ((d.blocked ≡ false) × (left ≡ []))
        ⊎ ((j : Job K) × (rest : List (Job K)) × (d.blocked ≡ true)
            × (left ≡ j ∷ rest)
            × (g.put j (pool_of j.0 d.pools) ≡ none))

is_same-eq : (p q : Protocol) → is_same p q ≡ true → p ≡ q
is_same-eq p q e = ground arith

pool_of-set_pool :
    {P : Type 0} (p q : Protocol) (x : P) (ps : HandlePools P)
    → pool_of p (set_pool q x ps) ≡ (if is_same p q then x else pool_of p ps)
pool_of-set_pool p q x ps = ground arith

module _ {K P : Type 0} (g : Grpool K P) (conf : HandlerConfig) where
  -- The pools have taken the jobs.
  abbrev IsFilled : Dispatched K P → Type 0
  IsFilled d =
      (p : Protocol) → fill g (jobs_in p d.jobs) (pool_for g conf p) ≡ some (pool_of p d.pools)

  start_pools-IsFilled : IsFilled (start_pools g conf)
  start_pools-IsFilled p = ground arith

  put-IsFilled :
      (p : Protocol) (msg : RelayPacket K) (q : P) (d : Dispatched K P)
      → g.put (p, msg) (pool_of p d.pools) ≡ some q
      → IsFilled d
      → IsFilled (record d { jobs = d.jobs ++ ((p, msg) ∷ []); pools = set_pool p q d.pools })
  put-IsFilled p msg q d e filled r = elim (Bool-cases (is_same r p)) [
    | inl same ↦
        let here : g.put (p, msg) (pool_of r d.pools) ≡ some q =
          subst (λ x. g.put (p, msg) (pool_of x d.pools) ≡ some q) (sym (is_same-eq r p same)) e in
        rw (jobs_in-append r d.jobs (p, msg), pool_of-set_pool r p q d.pools, same)
          (fill-append g (jobs_in r d.jobs) (p, msg) _ (pool_of r d.pools) q (filled r) here)
    | inr other ↦
        rw (jobs_in-append r d.jobs (p, msg), pool_of-set_pool r p q d.pools, other) (filled r)
  ]

  dispatch-IsDispatched :
      (msgs : List (RelayPacket K)) (d : Dispatched K P)
      → All HasPayload msgs
      → d.blocked ≡ false
      → IsFilled d
      → (d' : Dispatched K P) × (dispatch g msgs d ≡ some d')
        × IsDispatched g conf (d.jobs ++ jobs_of msgs) d'
  unfolding dispatch
  dispatch-IsDispatched [] d has runs filled =
      (d, refl, record { left = []; taken = refl; filled = filled; stops = inl (runs, refl) })
  dispatch-IsDispatched (msg ∷ rest) d ((m, here), has) runs filled =
      elim (Option-cases (handler_of (Header.get_pid m.header))) [
        | inl e ↦ rw (here, dispatch, job_of, e) (dispatch-IsDispatched rest d has runs filled)
        | inr (p, e) ↦ elim (Option-cases (g.put (p, msg) (pool_of p d.pools))) [
          | inl full ↦ (
            record d { blocked = true },
            rw (here, dispatch, e, full),
            record {
              left = jobs_of (msg ∷ rest);
              taken = refl;
              filled = filled;
              stops = inr ((p, msg), jobs_of rest, refl, job_of-here msg rest m p here e, full);
            },
          )
          | inr (q, room) ↦
              let d1 = record d {
                jobs = d.jobs ++ ((p, msg) ∷ []);
                pools = set_pool p q d.pools;
              } in
              let (d', runs', is) =
                dispatch-IsDispatched rest d1 has runs (put-IsFilled p msg q d room filled) in
              (
                d',
                rw (here, dispatch, e, room) runs',
                subst (λ js. IsDispatched g conf js d')
                    (append_assoc d.jobs ((p, msg) ∷ []) (jobs_of rest)
                      ∙ ap (◌++◌ d.jobs) (sym (job_of-here msg rest m p here e)))
                    is,
              )
        ]
      ]

  pub handle_in_message-IsDispatched :
      (msgs : List (RelayPacket K))
      → All HasPayload msgs
      → (d : Dispatched K P) × (handle_in_message g conf msgs ≡ some d)
        × IsDispatched g conf (jobs_of msgs) d
  unfolding handle_in_message
  handle_in_message-IsDispatched msgs has =
      dispatch-IsDispatched msgs (start_pools g conf) has refl start_pools-IsFilled
