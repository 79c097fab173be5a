-- ===== src/Gateway/Queue/Finished.antt =====
-- Which packets the dequeue handler has finished with.
use fim.Base.{◌≡◌, refl, Bool, true, false, some, [], ◌∷◌, ◌++◌, arith}
use fim.Gateway.Queue.{
  State, handling, Move, submit, take_packet, take_next, send, receive, finish, ask, initial, step,
  put, on_enqueue, queue_packet, on_next, next_packet, on_send, on_dequeue, on_packet, on_handled,
  on_ask,
}

-- What a packet is not bad with.
abbrev pub never : {P : Type 0} → P → Bool
never p = false

-- The handler of every packet returns.
abbrev pub always : {P : Type 0} → P → Bool
always p = true

-- The moves of the goroutines that handle no packet.
abbrev pub Passes : {P : Type 0} → Move P → Type 0
Passes finish = ⊥
Passes _ = Unit {0}

module _ {P : Type 0} where
  pub step-finished :
      (m : Move P) (s u : State P)
      → Passes m
      → step never always m s ≡ some u
      → u.finished ≡ s.finished
  unfolding step put on_enqueue queue_packet on_next next_packet on_send on_dequeue on_packet on_ask
  step-finished (submit p) s u pass e = ground arith
  step-finished take_packet s u pass e = ground arith
  step-finished take_next s u pass e = ground arith
  step-finished send s u pass e = ground arith
  step-finished receive s u pass e = ground arith
  step-finished finish s u pass e = absurd pass
  step-finished ask s u pass e = ground arith

  pub step-finish_handling :
      (p : P) (s u : State P)
      → s.receiver ≡ handling p
      → step never always finish s ≡ some u
      → u.finished ≡ s.finished ++ (p ∷ [])
  unfolding step on_handled
  step-finish_handling p s u h e = ground arith

  pub initial-finished : (initial {P = P}).finished ≡ []
  unfolding initial
  initial-finished = refl
