-- ===== src/Handler/Dispatch.antt =====
-- Which packets of the payloads that come to a logic server reach a handler.
use fim.Base.{
  ◌≡◌, ◌≢◌, inl, inr, none, some, List, [], ◌∷◌, ◌++◌, Option-cases, All, Error, fail, Act,
}
use fim.Wire.Buffer.{Bytes}
use fim.Wire.Ksuid.{Ksuids, KsuidLaws}
use fim.Wire.Header
use fim.Wire.Relay.{RelayPacket}
use fim.Wire.Relay
use fim.Wire.Relay.RoundTrip.{Carries}
use fim.LgServer.{LgServer, read_handler}
use fim.LgServer.Reading.{payloads, packets, read_handler-until}
use fim.Handler.{HandlerConfig, Job, Grpool, Dispatched, handler_of, handle_in_message, pool_func}
use fim.Handler.Pools.{HasPayload, job_of, jobs_of, IsDispatched, handle_in_message-IsDispatched}

module _ {K : Type 0} where
  -- Every job is of a packet that has a payload.
  jobs_of-HasPayload :
      (msgs : List (RelayPacket K))
      → All HasPayload msgs
      → All (λ (j : Job K). HasPayload j.1) (jobs_of msgs)
  jobs_of-HasPayload [] has = tt
  jobs_of-HasPayload (msg ∷ rest) ((m, here), has) =
      elim (Option-cases (handler_of (Header.get_pid m.header))) [
        | inl e ↦ rw (here, job_of, e) (jobs_of-HasPayload rest has)
        | inr (p, e) ↦ rw (here, job_of, e) ((m, here), jobs_of-HasPayload rest has)
      ]

  pool_func-HasPayload :
      {S : Type 0} (handle : RelayPacket K → Act S (Unit {0})) (s : S) (msg : RelayPacket K)
      → HasPayload msg
      → pool_func handle msg s ≢ none
  unfolding pool_func
  pool_func-HasPayload handle s msg (m, here) = rw here (λ e. cc)

  pool_func-jobs :
      {S : Type 0} (handle : RelayPacket K → Act S (Unit {0})) (s : S) (jobs : List (Job K))
      → All (λ (j : Job K). HasPayload j.1) jobs
      → All (λ (j : Job K). pool_func handle j.1 s ≢ none) jobs
  pool_func-jobs handle s [] has = tt
  pool_func-jobs handle s ((p, msg) ∷ jobs) (first, has) =
      (pool_func-HasPayload handle s msg first, pool_func-jobs handle s jobs has)

module _ {K : Type 0} ⦃ks : Ksuids K⦄ where
  packets-HasPayload :
      (ps : List (Bytes × RelayPacket K))
      → All (λ (p : Bytes × RelayPacket K). Carries p.0 p.1) ps
      → All HasPayload (packets ps)
  packets-HasPayload [] carried = tt
  packets-HasPayload ((b, m) ∷ ps) (first, carried) =
      ((first.message, first.sendable.has_payload), packets-HasPayload ps carried)

  -- Payloads that carry packets, each with a message, up to one that Decode does not read, come to a logic
  -- server whose handler has been sent nothing yet, and pools may block: handleInMessage does not
  -- panic. The pools have taken the jobs of the packets of the protocols that have a handler, in the
  -- packets' order, each the pool of its protocol: all of them, or those in front of the first one at
  -- which the pool of its protocol blocks for ever, and there the loop stays. And no job makes poolFunc
  -- panic, whatever its handler does.
  pub handle_in_message-read_handler :
      {W S P : Type 0} (g : Grpool K P) (conf : HandlerConfig) (ps : List (Bytes × RelayPacket K))
      (bad : Bytes) (rest : List Bytes) (lg : LgServer K W) (e : Error) (left : Bytes)
      (handle : RelayPacket K → Act S (Unit {0})) (s : S)
      → KsuidLaws ks
      → All (λ (p : Bytes × RelayPacket K). Carries p.0 p.1) ps
      → Relay.decode {K = K} bad ≡ fail e left
      → lg.handled ≡ []
      → (d : Dispatched K P) × (handle_in_message g conf
            (read_handler (payloads ps ++ (bad ∷ rest)) lg).handled
          ≡ some d)
        × IsDispatched g conf (jobs_of (packets ps)) d
        × All (λ (j : Job K). pool_func handle j.1 s ≢ none) (jobs_of (packets ps))
  handle_in_message-read_handler g conf ps bad rest lg e left handle s laws carried fails nothing =
      let has = packets-HasPayload ps carried in
      let (d, runs, is) = handle_in_message-IsDispatched g conf (packets ps) has in
      (
        d,
        rw (read_handler-until ps bad rest lg e left laws carried fails, nothing) runs,
        is,
        pool_func-jobs handle s (jobs_of (packets ps)) (jobs_of-HasPayload (packets ps) has),
      )
