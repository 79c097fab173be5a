-- ===== src/Handler/Starved.antt =====
-- What the pools of a new handler, which has no configuration, let through.
use fim.Base.{
  ◌*◌, ◌≤◌, ◌≡◌, ap, subst, ◌∙◌, inl, inr, true, none, some, List, [], ◌∷◌, ◌++◌, append-nil, arith,
  Option-cases, length, All,
}
use fim.Wire.Relay.{RelayPacket}
use fim.Handler.{
  Protocol, Job, Grpool, pool_of, Dispatched, pool_size, new_message_handler, handle_in_message,
}
use fim.Handler.Pools.{HasPayload, jobs_of, jobs_in, fill, handle_in_message-IsDispatched}

module _ {K P : Type 0} (g : Grpool K P) where
  fill_second :
      (js : List (Job K)) (q r : P)
      → ((i j : Job K) (r : P) → g.put i q ≡ some r → g.put j r ≡ none)
      → fill g js q ≡ some r
      → length js ≤ 1
  fill_second [] q r one e = omega arith
  fill_second (i ∷ []) q r one e = omega arith
  fill_second (i ∷ j ∷ js) q r one e = elim (Option-cases (g.put i q)) [
    | inl n ↦ absurd (ground (arith, n, e))
    | inr (x, h) ↦ let full = one i j x h in absurd (ground (arith, h, full, e))
  ]

  pool_size-new : (k : K) (p : Protocol) → pool_size (new_message_handler k).conf p ≡ 0
  unfolding pool_size new_message_handler
  pool_size-new k p = ground arith

  -- Packets with payloads, two of them at least of one protocol that has a handler, come to a handler
  -- that NewMessageHandler has made, and a pool without workers and without room for waiting jobs takes
  -- one job at most: handleInMessage does not panic, puts at most one job of each protocol into its
  -- pool, and blocks for ever.
  pub new_message_handler-one_job :
      (k : K) (msgs : List (RelayPacket K)) (p : Protocol)
      → ((i j : Job K) (r : P) → g.put i (g.new_pool 0 0) ≡ some r → g.put j r ≡ none)
      → All HasPayload msgs
      → 2 ≤ length (jobs_in p (jobs_of msgs))
      → (d : Dispatched K P) × (handle_in_message g (new_message_handler k).conf msgs ≡ some d)
        × ((r : Protocol) → length (jobs_in r d.jobs) ≤ 1)
        × (d.blocked ≡ true)
  new_message_handler-one_job k msgs p one has two =
      let (d, runs, is) = handle_in_message-IsDispatched g (new_message_handler k).conf msgs has in
      let few : (r : Protocol) → length (jobs_in r d.jobs) ≤ 1 = λ r.
        fill_second (jobs_in r d.jobs) (g.new_pool 0 0) (pool_of r d.pools) one (
          subst (λ n. fill g (jobs_in r d.jobs) (g.new_pool n (n * 10)) ≡ some (pool_of r d.pools))
            (pool_size-new k r) (is.filled r)) in
      (
        d,
        runs,
        few,
        elim is.stops [
          | inl (runs', nothing) ↦
              let all : jobs_of msgs ≡ d.jobs =
                is.taken ∙ ap (◌++◌ d.jobs) nothing ∙ append-nil d.jobs in
              let two' = subst (λ js. 2 ≤ length (jobs_in p js)) all two in
              absurd (omega (arith, two', few p))
          | inr (j, rest, stuck, more, full) ↦ stuck
        ],
      )
