-- ===== src/Gateway/Queue/Drain.antt =====
-- The queue makes progress: without further packets, all that were put in are handled.
use fim.Base.{
  ℕ, zero, suc, ◌+◌, ◌*◌, ◌<◌, ◌≡◌, refl, sym, ap, ◌∙◌, ◌⊎◌, inl, inr, Bool, true, false, Option,
  none, some, List, [], ◌∷◌, ◌++◌, append-nil, arith, length,
}
use fim.Gateway.Queue.{
  State, Sender, Receiver, selecting, sending, receiving, handling, asking, Move, take_packet,
  take_next, send, receive, finish, ask, initial, step, Reach, here, later, on_enqueue,
  queue_packet, on_next, next_packet, on_send, on_dequeue, on_packet, on_handled, on_ask,
}
use fim.Gateway.Queue.Order.{Inv, in_flight, Reach-Inv, Reach-ordered}
use fim.Gateway.Queue.Tokens.{IsSingle, of_sender, of_channel, of_next, Reach-IsSingle}

module _ {P : Type 0} where
  abbrev left_in_receiver : Receiver P → ℕ
  left_in_receiver receiving = 0
  left_in_receiver (handling p) = 3
  left_in_receiver asking = 2

  -- The moves that are left for the packets that have been put in.
  abbrev work : State P → ℕ
  work s =
      6 * of_channel s.enqueue
      + 5 * length s.pending_msgs
      + 5 * of_sender s.sender
      + 4 * of_channel s.dequeue
      + left_in_receiver s.receiver
      + of_next s.next

  -- A move of a goroutine that leaves less work.
  record Progress (bad ends : P → Bool) (s : State P) : Type 0 where
    move : Move P
    next_state : State P
    moves : step bad ends move s ≡ some next_state
    less : work next_state < work s
    same : next_state.submitted ≡ s.submitted

  module _ (bad ends : P → Bool) (good : (p : P) → bad p ≡ false)
      (returns : (p : P) → ends p ≡ true) where
    select_advances :
        (n : Bool) (e : Option P) (l : List P) (s : State P)
        → s.next ≡ n
        → s.enqueue ≡ e
        → s.pending_msgs ≡ l
        → s.sender ≡ selecting
        → s.dequeue ≡ none
        → s.receiver ≡ receiving
        → Inv s
        → IsSingle s
        → (in_flight s ≡ []) ⊎ Progress bad ends s
    unfolding step on_next next_packet on_enqueue queue_packet
    select_advances true e [] s hn he hl hx hd hr v w = inr (record {
      move = take_next;
      next_state = record s { next = false; waiting = false };
      moves = ground arith;
      less = ground arith;
      same = refl;
    })
    select_advances true e (p ∷ ps) s hn he hl hx hd hr v w = inr (record {
      move = take_next;
      next_state = record s { next = false; pending_msgs = ps; sender = sending p };
      moves = ground arith;
      less = ground arith;
      same = refl;
    })
    select_advances false (some p) l s hn he hl hx hd hr v w = inr (record {
      move = take_packet;
      next_state = record s { enqueue = none; sender = sending p };
      moves = ground arith;
      less = ground arith;
      same = refl;
    })
    select_advances false none l s hn he hl hx hd hr v w = inl (ground arith)

    sender_advances :
        (x : Sender P) (s : State P)
        → s.sender ≡ x
        → s.dequeue ≡ none
        → s.receiver ≡ receiving
        → Inv s
        → IsSingle s
        → (in_flight s ≡ []) ⊎ Progress bad ends s
    unfolding step on_send
    sender_advances selecting s hx hd hr v w =
        select_advances s.next s.enqueue s.pending_msgs s refl refl refl hx hd hr v w
    sender_advances (sending p) s hx hd hr v w = inr (record {
      move = send;
      next_state = record s { dequeue = some p; waiting = true; sender = selecting };
      moves = ground arith;
      less = ground arith;
      same = refl;
    })

    receiver_advances :
        (r : Receiver P) (d : Option P) (s : State P)
        → s.receiver ≡ r
        → s.dequeue ≡ d
        → Inv s
        → IsSingle s
        → (in_flight s ≡ []) ⊎ Progress bad ends s
    unfolding step on_dequeue on_packet on_handled on_ask
    receiver_advances receiving none s hr hd v w = sender_advances s.sender s refl hd hr v w
    receiver_advances receiving (some p) s hr hd v w = inr (record {
      move = receive;
      next_state = record s { dequeue = none; receiver = handling p };
      moves = ground (arith, good p);
      less = ground arith;
      same = refl;
    })
    receiver_advances (handling p) d s hr hd v w = inr (record {
      move = finish;
      next_state = record s { receiver = asking; finished = s.finished ++ (p ∷ []) };
      moves = ground (arith, returns p);
      less = ground arith;
      same = refl;
    })
    receiver_advances asking d s hr hd v w = inr (record {
      move = ask;
      next_state = record s { next = true; receiver = receiving };
      moves = ground arith;
      less = ground arith;
      same = refl;
    })

    -- The state when the goroutines have done all the work that is left.
    record Drained (start : State P) : Type 0 where
      last : State P
      reached : Reach bad ends start last
      finishes : last.finished ≡ start.submitted
      empty : in_flight last ≡ []

    drain :
        (fuel : ℕ) (start s : State P)
        → work s < fuel
        → s.submitted ≡ start.submitted
        → Reach bad ends initial s
        → Reach bad ends start s
        → Drained start
    drain zero start s h e r q = absurd (omega arith)
    drain (suc fuel) start s h e r q =
        elim (receiver_advances s.receiver s.dequeue s refl refl (Reach-Inv bad ends r)
          (Reach-IsSingle bad ends good r)) [
            | inl none_left ↦ record {
              last = s;
              reached = q;
              finishes =
                  sym (
                    Reach-ordered bad ends s r
                    ∙ ap (◌++◌ s.finished) none_left
                    ∙ append-nil s.finished)
                  ∙ e;
              empty = none_left;
            }
            | inr p ↦
                drain fuel start p.next_state (omega (arith, p.less)) (p.same ∙ e)
                  (later p.move r p.moves) (later p.move q p.moves)
          ]

    -- While no packet is bad and the handler of every packet returns, from every reachable state the two goroutines can, by their own moves,
    -- come to a state where exactly the packets put in so far have been handled, in their order, and
    -- none is on its way.
    pub Reach-drained :
        (s : State P)
        → Reach bad ends initial s
        → (t : State P) × Reach bad ends s t × (t.finished ≡ s.submitted) × (in_flight t ≡ [])
    Reach-drained s r =
        let d = drain (suc (work s)) s s (omega arith) refl r here in
        (d.last, d.reached, d.finishes, d.empty)
