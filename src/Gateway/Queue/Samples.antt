-- ===== src/Gateway/Queue/Samples.antt =====
-- One packet on its way through the queue, for tests.
use fim.Base.{◌≡◌, refl, true, false, none, some, [], ◌∷◌}
use fim.Gateway.Queue.{
  State, submit, take_packet, send, receive, finish, selecting, sending, receiving, handling,
  asking, initial, step, put, on_enqueue, queue_packet, on_send, on_dequeue, on_packet, on_handled,
}
use fim.Gateway.Queue.Finished.{always, never}

abbrev pub entered : {P : Type 0} → P → State P
entered p = record {
  enqueue = some p;
  dequeue = none;
  next = false;
  pending_msgs = [];
  waiting = false;
  sender = selecting;
  receiver = receiving;
  submitted = p ∷ [];
  finished = [];
}

abbrev pub taken : {P : Type 0} → P → State P
taken p = record (entered p) { enqueue = none; sender = sending p }

abbrev pub passed : {P : Type 0} → P → State P
passed p = record (entered p) { enqueue = none; dequeue = some p; waiting = true }

abbrev pub in_handler : {P : Type 0} → P → State P
in_handler p = record (passed p) { dequeue = none; receiver = handling p }

abbrev pub through : {P : Type 0} → P → State P
through p = record (in_handler p) { receiver = asking; finished = p ∷ [] }

module _ {P : Type 0} where
  pub step-entered : (p : P) → step never always (submit p) initial ≡ some (entered p)
  unfolding initial step put
  step-entered p = refl

  pub step-taken : (p : P) → step never always take_packet (entered p) ≡ some (taken p)
  unfolding step on_enqueue queue_packet
  step-taken p = refl

  pub step-passed : (p : P) → step never always send (taken p) ≡ some (passed p)
  unfolding step on_send
  step-passed p = refl

  pub step-in_handler : (p : P) → step never always receive (passed p) ≡ some (in_handler p)
  unfolding step on_dequeue on_packet
  step-in_handler p = refl

  pub step-through : (p : P) → step never always finish (in_handler p) ≡ some (through p)
  unfolding step on_handled
  step-through p = refl
