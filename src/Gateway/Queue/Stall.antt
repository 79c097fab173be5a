-- ===== src/Gateway/Queue/Stall.antt =====
-- A bad packet stops the queue: its handler asks for no other.
use fim.Base.{◌≡◌, subst, Bool, true, false, none, some, List, [], ◌∷◌, ◌++◌, arith}
use fim.Gateway.Queue.{
  State, selecting, receiving, Move, submit, take_packet, take_next, send, receive, finish, ask,
  step, Reach, here, later, put, on_enqueue, queue_packet, on_next, on_send, on_dequeue, on_packet,
  on_handled, on_ask,
}
use fim.Gateway.Queue.Order.{Holds}

module _ {P : Type 0} where
  -- A packet is waited for, and none is on its way to the receiver, nor a request back.
  record Stalled (last : List P) (s : State P) : Type 0 where
    selects : s.sender ≡ selecting
    empty : s.dequeue ≡ none
    silent : s.next ≡ false
    waits : s.waiting ≡ true
    receives : s.receiver ≡ receiving
    stuck : s.finished ≡ last

  module _ (bad ends : P → Bool) where
    step-Stalled :
        (m : Move P) (last : List P) (s : State P)
        → Stalled last s
        → Holds (Stalled last) (step bad ends m s)
    unfolding step put on_enqueue queue_packet on_next on_send on_dequeue on_handled on_ask
    step-Stalled (submit p) last s v = ground arith
    step-Stalled take_packet last s v = ground arith
    step-Stalled take_next last s v = ground arith
    step-Stalled send last s v = ground arith
    step-Stalled receive last s v = ground arith
    step-Stalled finish last s v = ground arith
    step-Stalled ask last s v = ground arith

    Reach-Stalled :
        {last : List P} {s t : State P} → Stalled last s → Reach bad ends s t → Stalled last t
    Reach-Stalled v here = v
    Reach-Stalled {last} v (later {t} {u} m r e) =
        subst (Holds (Stalled last)) e (step-Stalled m last t (Reach-Stalled v r))

    after_bad :
        (s u : State P) (p : P)
        → s.sender ≡ selecting
        → s.waiting ≡ true
        → s.next ≡ false
        → s.receiver ≡ receiving
        → s.dequeue ≡ some p
        → bad p ≡ true
        → step bad ends receive s ≡ some u
        → Stalled (s.finished ++ (p ∷ [])) u
    unfolding step on_dequeue on_packet
    after_bad s u p hx hw hn hr hd hb e = ground arith

    -- Once the dequeue handler, idle with the enqueue handler in its select and no request on
    -- `next`, has taken a bad packet for which it was waited, no other packet is ever finished,
    -- whatever is put in later.
    pub bad_packet_stalls :
        (s u t : State P) (p : P)
        → s.sender ≡ selecting
        → s.waiting ≡ true
        → s.next ≡ false
        → s.receiver ≡ receiving
        → s.dequeue ≡ some p
        → bad p ≡ true
        → step bad ends receive s ≡ some u
        → Reach bad ends u t
        → t.finished ≡ s.finished ++ (p ∷ [])
    bad_packet_stalls s u t p hx hw hn hr hd hb e r =
        (Reach-Stalled (after_bad s u p hx hw hn hr hd hb e) r).stuck
