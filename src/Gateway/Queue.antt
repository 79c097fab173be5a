-- ===== src/Gateway/Queue.antt =====
-- gateway/wss/hub.go: the queue of packets between two goroutines. packetPushEnqueueHandler takes
-- packets from the channel `enqueue` and passes them on to `dequeue` one at a time;
-- packetPushDequeueHandler handles a packet and asks for another on `next`. Each channel holds one
-- element. A move is what one goroutine does between two of its channel operations.
pub mod Order
pub mod Tokens
pub mod Drain
pub mod Stall
pub mod Finished
pub mod Samples
mod Tests
use fim.Base.{
  ◌+◌, ◌-◌, ◌/◌, ◌≡◌, ite, Bool, true, false, not, Option, none, some, List, [], ◌∷◌, ◌++◌,
  if◌then◌else◌, take, panic, return,
}

-- Where packetPushEnqueueHandler stands: in its select, or in the send of a packet to `dequeue`.
pub data Sender (P : Type 0) : Type 0 where
  selecting : Sender P
  sending : P → Sender P

-- Where packetPushDequeueHandler stands: in its receive, in the handler of a packet, or in the send
-- to `next`.
pub data Receiver (P : Type 0) : Type 0 where
  receiving : Receiver P
  handling : P → Receiver P
  asking : Receiver P

-- The channels, the variables `pendingMsgs` and `waiting`, the goroutines, and the packets put in
-- and finished with so far.
pub record State (P : Type 0) : Type 0 where
  pub enqueue : Option P
  pub dequeue : Option P
  pub next : Bool
  pub pending_msgs : List P
  pub waiting : Bool
  pub sender : Sender P
  pub receiver : Receiver P
  pub submitted : List P
  pub finished : List P

pub initial : {P : Type 0} → State P
initial = record {
  enqueue = none;
  dequeue = none;
  next = false;
  pending_msgs = [];
  waiting = false;
  sender = selecting;
  receiver = receiving;
  submitted = [];
  finished = [];
}

pub data Move (P : Type 0) : Type 0 where
  submit : P → Move P
  take_packet take_next send receive finish ask : Move P

-- `none` where the goroutine is somewhere else or its channel blocks. `ends` says whether the handler of
-- a packet returns: it does not where it panics, or where it blocks in a Send to a full proxy.
module _ {P : Type 0} (bad ends : P → Bool) where
  -- A send to `enqueue`, by Push or handleSeverEvents.
  put : P → State P → Option (State P)
  put p s = elim s.enqueue [
    | some _ ↦ none
    | none ↦ some (record s { enqueue = some p; submitted = s.submitted ++ (p ∷ []) })
  ]

  -- queuePacket: the packet goes to `dequeue`, or to the end of the list while one is waited for.
  queue_packet : P → State P → State P
  queue_packet p s =
      if s.waiting
      then record s { pending_msgs = s.pending_msgs ++ (p ∷ []) }
      else record s { sender = sending p }

  -- The case of `enqueue` in the select.
  on_enqueue : Sender P → Option P → State P → Option (State P)
  on_enqueue selecting (some p) s = some (queue_packet p (record s { enqueue = none }))
  on_enqueue _ _ s = none

  -- The first of the pending packets, if there is one.
  next_packet : List P → State P → State P
  next_packet [] s = record s { waiting = false }
  next_packet (p ∷ ps) s = record s { pending_msgs = ps; sender = sending p }

  -- The case of `next` in the select.
  on_next : Sender P → Bool → State P → Option (State P)
  on_next selecting true s = some (next_packet s.pending_msgs (record s { next = false }))
  on_next _ _ s = none

  -- The send to `dequeue`, after which a packet is always waited for.
  on_send : Sender P → Option P → State P → Option (State P)
  on_send (sending p) none s =
      some (record s { dequeue = some p; waiting = true; sender = selecting })
  on_send _ _ s = none

  -- A bad packet is logged, and the loop goes on without asking for another.
  on_packet : P → State P → State P
  on_packet p s =
      if bad p
      then record s { dequeue = none; finished = s.finished ++ (p ∷ []) }
      else record s { dequeue = none; receiver = handling p }

  on_dequeue : Receiver P → Option P → State P → Option (State P)
  on_dequeue receiving (some p) s = some (on_packet p s)
  on_dequeue _ _ s = none

  -- The end of a packet's handler, if it returns.
  on_handled : Receiver P → State P → Option (State P)
  on_handled (handling p) s =
      if ends p
      then some (record s { receiver = asking; finished = s.finished ++ (p ∷ []) })
      else none
  on_handled _ s = none

  on_ask : Receiver P → Bool → State P → Option (State P)
  on_ask asking false s = some (record s { next = true; receiver = receiving })
  on_ask _ _ s = none

  pub step : Move P → State P → Option (State P)
  unfolding put queue_packet on_enqueue next_packet on_next on_send on_packet on_dequeue on_handled
      on_ask
  step (submit p) s = put p s
  step take_packet s = on_enqueue s.sender s.enqueue s
  step take_next s = on_next s.sender s.next s
  step send s = on_send s.sender s.dequeue s
  step receive s = on_dequeue s.receiver s.dequeue s
  step finish s = on_handled s.receiver s
  step ask s = on_ask s.receiver s.next s

  pub data Reach (s : State P) : State P → Type 0 where
    here : Reach s s
    later : {t u : State P} (m : Move P) → Reach s t → step m t ≡ some u → Reach s u
