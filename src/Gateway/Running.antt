-- ===== src/Gateway/Running.antt =====
-- gateway/wss/hub.go: the queue's two goroutines, the handlers that the second of them calls, and the
-- messages of clients between them, in any order.
mod Tests
use fim.Base.{
  ℕ, ◌+◌, ◌-◌, ◌/◌, ◌≡◌, refl, sym, ap, subst, fun_ext, ◌∙◌, ite, not, some, List, [], ◌∷◌, ◌++◌,
  map, arith, panic, ◌>>=◌, ◌>>◌, return,
}
use fim.Wire.Ksuid.{Ksuids}
use fim.Wire.Entity.{Proto}
use fim.Wire.Message.{Message}
use fim.Peer.Client.{WsClient, WsConn, ClientAttrs}
use fim.Peer.Client.Identity.{NoPanic}
use fim.Gateway.Queue.{
  State, Move, Receiver, handling, submit, finish, initial, step, Reach, here, later,
}
use fim.Gateway.Queue.Order.{in_flight, Reach-ordered}
use fim.Gateway.Queue.Finished.{
  never, always, Passes, initial-finished, step-finished, step-finish_handling,
}
use fim.Gateway.Hub.{Gateway, Packet, handle, handle_client_message}
use fim.Gateway.Hub.Registry.{Registry, apply, drift, registered}
use fim.Gateway.Hub.Counting.{Counted, Keeps}
use fim.Gateway.Hub.Balance.{IsSound, handle-Keeps}
use fim.Gateway.Hub.Refinement.{AreSound, replay, total_drift}

module _ {K C : Type 0} ⦃ks : Ksuids K⦄ ⦃ws : WsConn C⦄ where
  -- The queue and the gateway, from an empty queue and the gateway `g0`: a packet is put in or moves
  -- on; the packet that is being handled goes through its handler, behind which the dequeue handler
  -- goes on; or a client's message goes to the proxy.
  pub data Runs (proto : Proto) (g0 : Gateway K C) : State (Packet K C) → Gateway K C → Type 0 where
    begins : Runs proto g0 initial g0
    passes :
        {q u : State (Packet K C)} {g : Gateway K C} (m : Move (Packet K C))
        → Runs proto g0 q g
        → Passes m
        → step never always m q ≡ some u
        → Runs proto g0 u g
    handles :
        {q u : State (Packet K C)} {g g' : Gateway K C} (p : Packet K C)
        → Runs proto g0 q g
        → q.receiver ≡ handling p
        → handle proto p g ≡ some g'
        → step never always finish q ≡ some u
        → Runs proto g0 u g'
    sends :
        {q : State (Packet K C)} {g g' : Gateway K C} (id : K) (attrs : ClientAttrs) (m : Message)
        → Runs proto g0 q g
        → handle_client_message id attrs m g ≡ some g'
        → Runs proto g0 q g'

  Runs-Reach :
      {proto : Proto} {g0 g : Gateway K C} {q : State (Packet K C)}
      → Runs proto g0 q g
      → Reach never always initial q
  Runs-Reach begins = here
  Runs-Reach (passes m r pass e) = later m (Runs-Reach r) e
  Runs-Reach (handles p r at h e) = later finish (Runs-Reach r) e
  Runs-Reach (sends id attrs m r h) = Runs-Reach r

  -- The gateway `g` behind the packets `ps`, from a map `m0`.
  record Stands (proto : Proto) (x : ℕ) (m0 : List (K × WsClient K C)) (ps : List (Packet K C))
      (g : Gateway K C) : Type 0 where
    clients_now : List (K × WsClient K C)
    counted : Counted (x + total_drift proto ps (registered m0)) g clients_now
    stands_for : registered clients_now ≡ replay proto ps (registered m0)

  replay-snoc :
      (proto : Proto) (ps : List (Packet K C)) (p : Packet K C) (f : Registry K)
      → replay proto (ps ++ (p ∷ [])) f ≡ apply proto p (replay proto ps f)
  replay-snoc proto [] p f = refl
  replay-snoc proto (q ∷ ps) p f = replay-snoc proto ps p (apply proto q f)

  total_drift-snoc :
      (proto : Proto) (ps : List (Packet K C)) (p : Packet K C) (f : Registry K)
      → total_drift proto (ps ++ (p ∷ [])) f
        ≡ total_drift proto ps f + drift proto p (replay proto ps f)
  total_drift-snoc proto [] p f = omega arith
  total_drift-snoc proto (q ∷ ps) p f = omega (arith, total_drift-snoc proto ps p (apply proto q f))

  handle_client_message-Counted :
      (x : ℕ) (id : K) (attrs : ClientAttrs) (msg : Message) (g g' : Gateway K C)
      (m : List (K × WsClient K C))
      → handle_client_message id attrs msg g ≡ some g'
      → Counted x g m
      → Counted x g' m
  unfolding handle_client_message
  handle_client_message-Counted x id attrs msg g g' m e v = record {
    running = ground arith;
    holds = ground arith;
    distinct = v.distinct;
    keyed = v.keyed;
    count = ground arith;
  }

  AreSound-snoc :
      (proto : Proto) (ps : List (Packet K C)) (p : Packet K C)
      → AreSound proto (ps ++ (p ∷ []))
      → AreSound proto ps × IsSound proto p
  AreSound-snoc proto [] p s = (tt, s.0)
  AreSound-snoc proto (q ∷ ps) p s =
      let (rest, last) = AreSound-snoc proto ps p s.1 in ((s.0, rest), last)

  handle-Stands :
      (proto : Proto) (x : ℕ) (m0 : List (K × WsClient K C)) (ps : List (Packet K C))
      (p : Packet K C) (g g' : Gateway K C)
      → NoPanic ws
      → IsSound proto p
      → handle proto p g ≡ some g'
      → Stands proto x m0 ps g
      → Stands proto x m0 (ps ++ (p ∷ [])) g'
  handle-Stands proto x m0 ps p g g' safe sound e v =
      let k =
        handle-Keeps (x + total_drift proto ps (registered m0)) proto p g v.clients_now safe
          v.counted sound in
      record {
        clients_now = k.clients_after;
        counted =
            subst2 (λ n h. Counted n h k.clients_after)
              (ap (λ f. x + total_drift proto ps (registered m0) + drift proto p f) v.stands_for
                ∙ omega (arith, total_drift-snoc proto ps p (registered m0)))
              (same (sym k.returns ∙ e)) k.counted;
        stands_for =
            fun_ext k.stands_for
            ∙ ap (apply proto p) v.stands_for
            ∙ sym (replay-snoc proto ps p (registered m0));
      }
    where
      same : {a b : Gateway K C} → some a ≡ some b → a ≡ b
      same h = cc

      subst2 :
          {a a' : ℕ} {b b' : Gateway K C} (F : ℕ → Gateway K C → Type 0)
          → a ≡ a'
          → b ≡ b'
          → F a b
          → F a' b'
      subst2 {a} {a'} {b} {b'} F h h' t = subst (F a') h' (subst (λ n. F n b) h t)

  Runs-Stands :
      {proto : Proto} {g0 g : Gateway K C} {q : State (Packet K C)} (x : ℕ)
      (m0 : List (K × WsClient K C))
      → NoPanic ws
      → Counted x g0 m0
      → Runs proto g0 q g
      → AreSound proto q.finished
      → Stands proto x m0 q.finished g
  Runs-Stands {proto} {g0} x m0 safe v begins sound =
      subst (λ ps. Stands proto x m0 ps g0) (sym initial-finished)
        (record {
          clients_now = m0;
          counted = subst (λ n. Counted n g0 m0) (omega arith) v;
          stands_for = refl;
        })
  Runs-Stands {proto} x m0 safe v (passes {q} {u} {g} m r pass e) sound =
      let same = step-finished m q u pass e in
      subst (λ ps. Stands proto x m0 ps g) (sym same)
        (Runs-Stands x m0 safe v r (subst (AreSound proto) same sound))
  Runs-Stands {proto} x m0 safe v (handles {q} {u} {g} {g'} p r at h e) sound =
      let longer = step-finish_handling p q u at e in
      let (before, last) = AreSound-snoc proto q.finished p (subst (AreSound proto) longer sound) in
      subst (λ ps. Stands proto x m0 ps g') (sym longer)
        (handle-Stands proto x m0 q.finished p g g' safe last h (Runs-Stands x m0 safe v r before))
  Runs-Stands {proto} x m0 safe v (sends {q} {g} {g'} id attrs m r h) sound =
      let s = Runs-Stands x m0 safe v r sound in
      record {
        clients_now = s.clients_now;
        counted =
            handle_client_message-Counted (x + total_drift proto q.finished (registered m0)) id
              attrs m g g' s.clients_now h s.counted;
        stands_for = s.stands_for;
      }

  -- In every state that the queue and the gateway reach together, with connections whose writes
  -- do not panic, from an empty queue and a gateway whose counter is ahead of the size of its map
  -- by `x`, when the packets that have been handled are sound (each relayed message has a
  -- payload, and a kick-out can be read): the packets put in are those handled, in their order,
  -- and those on their way; and the gateway's map has exactly the identifiers of the replay of
  -- the handled packets, its counter ahead by `x` and their drift, whatever messages of clients
  -- went to the proxy meanwhile.
  pub Runs-refines :
      (proto : Proto) (x : ℕ) (g0 g : Gateway K C) (m0 : List (K × WsClient K C))
      (q : State (Packet K C))
      → NoPanic ws
      → Counted x g0 m0
      → Runs proto g0 q g
      → AreSound proto q.finished
      → (q.submitted ≡ q.finished ++ in_flight q)
        × ((m : List (K × WsClient K C)) × Counted
              (x + total_drift proto q.finished (registered m0))
              g
              m
            × (registered m ≡ replay proto q.finished (registered m0)))
  Runs-refines proto x g0 g m0 q safe v r sound =
      let s = Runs-Stands x m0 safe v r sound in
      (Reach-ordered never always q (Runs-Reach r), (s.clients_now, s.counted, s.stands_for))
