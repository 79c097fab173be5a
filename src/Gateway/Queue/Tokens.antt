-- ===== src/Gateway/Queue/Tokens.antt =====
-- One packet at a time: while no packet is bad, a single token goes round between the goroutines,
-- and neither is ever blocked on a channel that the other one has filled.
use fim.Base.{
  ℕ, ◌+◌, ◌≡◌, refl, subst, ◌⊎◌, inl, inr, Bool, true, false, Option, none, some, List, [], ◌∷◌,
  ◌++◌, arith, Bool-cases,
}
use fim.Gateway.Queue.{
  State, Sender, Receiver, selecting, sending, receiving, handling, asking, Move, submit,
  take_packet, take_next, send, receive, finish, ask, initial, step, Reach, here, later, put,
  on_enqueue, queue_packet, on_next, next_packet, on_send, on_dequeue, on_packet, on_handled,
  on_ask,
}
use fim.Gateway.Queue.Order.{Holds}

abbrev pub of_next : Bool → ℕ
of_next false = 0
of_next true = 1

module _ {P : Type 0} where
  abbrev pub of_sender : Sender P → ℕ
  of_sender selecting = 0
  of_sender (sending p) = 1

  abbrev pub of_receiver : Receiver P → ℕ
  of_receiver receiving = 0
  of_receiver (handling p) = 1
  of_receiver asking = 1

  abbrev pub of_channel : Option P → ℕ
  of_channel none = 0
  of_channel (some p) = 1

  -- The packets between the sender and the receiver, and the requests for another.
  abbrev pub tokens : State P → ℕ
  tokens s = of_sender s.sender + of_channel s.dequeue + of_receiver s.receiver + of_next s.next

  -- One token while a packet is waited for or being sent, and none otherwise.
  abbrev pub IsSingle : State P → Type 0
  IsSingle s =
      ((s.waiting ≡ true) × (tokens s ≡ 1))
      ⊎ ((s.waiting ≡ false) × (tokens s ≡ of_sender s.sender))

  module _ (bad ends : P → Bool) (good : (p : P) → bad p ≡ false) where
    put-IsSingle : (p : P) (s : State P) → IsSingle s → Holds IsSingle (put bad ends p s)
    unfolding put
    put-IsSingle p s v = ground arith

    on_enqueue-IsSingle :
        (x : Sender P) (e : Option P) (s : State P)
        → s.sender ≡ x
        → IsSingle s
        → Holds IsSingle (on_enqueue bad ends x e s)
    unfolding on_enqueue queue_packet
    on_enqueue-IsSingle selecting (some p) s hx v = ground arith
    on_enqueue-IsSingle selecting none s hx v = tt
    on_enqueue-IsSingle (sending q) e s hx v = tt

    next_packet-IsSingle :
        (l : List P) (s : State P)
        → s.sender ≡ selecting
        → s.next ≡ true
        → IsSingle s
        → IsSingle (next_packet bad ends l (record s { next = false }))
    unfolding next_packet
    next_packet-IsSingle [] s hx hn v = ground arith
    next_packet-IsSingle (p ∷ ps) s hx hn v = ground arith

    on_next-IsSingle :
        (x : Sender P) (n : Bool) (s : State P)
        → s.sender ≡ x
        → s.next ≡ n
        → IsSingle s
        → Holds IsSingle (on_next bad ends x n s)
    unfolding on_next
    on_next-IsSingle selecting true s hx hn v = next_packet-IsSingle s.pending_msgs s hx hn v
    on_next-IsSingle selecting false s hx hn v = tt
    on_next-IsSingle (sending q) n s hx hn v = tt

    on_send-IsSingle :
        (x : Sender P) (d : Option P) (s : State P)
        → s.sender ≡ x
        → s.dequeue ≡ d
        → IsSingle s
        → Holds IsSingle (on_send bad ends x d s)
    unfolding on_send
    on_send-IsSingle (sending p) none s hx hd v = ground arith
    on_send-IsSingle (sending p) (some q) s hx hd v = tt
    on_send-IsSingle selecting d s hx hd v = tt

    on_dequeue-IsSingle :
        (r : Receiver P) (d : Option P) (s : State P)
        → s.receiver ≡ r
        → s.dequeue ≡ d
        → IsSingle s
        → Holds IsSingle (on_dequeue bad ends r d s)
    unfolding on_dequeue on_packet
    on_dequeue-IsSingle receiving (some p) s hr hd v = ground (arith, good p)
    on_dequeue-IsSingle receiving none s hr hd v = tt
    on_dequeue-IsSingle (handling q) d s hr hd v = tt
    on_dequeue-IsSingle asking d s hr hd v = tt

    handled-IsSingle :
        (p : P) (s : State P)
        → s.receiver ≡ handling p
        → IsSingle s
        → IsSingle (record s { receiver = asking; finished = s.finished ++ (p ∷ []) })
    handled-IsSingle p s hr v = ground arith

    on_handled-IsSingle :
        (r : Receiver P) (s : State P)
        → s.receiver ≡ r
        → IsSingle s
        → Holds IsSingle (on_handled bad ends r s)
    unfolding on_handled
    on_handled-IsSingle (handling p) s hr v = elim (Bool-cases (ends p)) [
      | inl e ↦ rw (e, on_handled) (handled-IsSingle p s hr v)
      | inr e ↦ rw (e, on_handled) tt
    ]
    on_handled-IsSingle receiving s hr v = tt
    on_handled-IsSingle asking s hr v = tt

    on_ask-IsSingle :
        (r : Receiver P) (n : Bool) (s : State P)
        → s.receiver ≡ r
        → s.next ≡ n
        → IsSingle s
        → Holds IsSingle (on_ask bad ends r n s)
    unfolding on_ask
    on_ask-IsSingle asking false s hr hn v = ground arith
    on_ask-IsSingle asking true s hr hn v = tt
    on_ask-IsSingle receiving n s hr hn v = tt
    on_ask-IsSingle (handling p) n s hr hn v = tt

    step-IsSingle : (m : Move P) (s : State P) → IsSingle s → Holds IsSingle (step bad ends m s)
    unfolding step
    step-IsSingle (submit p) s v = put-IsSingle p s v
    step-IsSingle take_packet s v = on_enqueue-IsSingle s.sender s.enqueue s refl v
    step-IsSingle take_next s v = on_next-IsSingle s.sender s.next s refl refl v
    step-IsSingle send s v = on_send-IsSingle s.sender s.dequeue s refl refl v
    step-IsSingle receive s v = on_dequeue-IsSingle s.receiver s.dequeue s refl refl v
    step-IsSingle finish s v = on_handled-IsSingle s.receiver s refl v
    step-IsSingle ask s v = on_ask-IsSingle s.receiver s.next s refl refl v

    initial-IsSingle : IsSingle initial
    unfolding initial
    initial-IsSingle = inr (refl, refl)

    pub Reach-IsSingle : {s : State P} → Reach bad ends initial s → IsSingle s
    Reach-IsSingle here = initial-IsSingle
    Reach-IsSingle (later {t} {u} m r e) =
        subst (Holds IsSingle) e (step-IsSingle m t (Reach-IsSingle r))

    sender_free :
        (x : Sender P) (s : State P)
        → s.sender ≡ x
        → IsSingle s
        → (x ≡ selecting) ⊎ ((u : State P) × (on_send bad ends x s.dequeue s ≡ some u))
    unfolding on_send
    sender_free selecting s h v = inl refl
    sender_free (sending p) s h v =
        let free : s.dequeue ≡ none = ground arith in
        inr (record s { dequeue = some p; waiting = true; sender = selecting }, rw (free, on_send))

    receiver_free :
        (r : Receiver P) (s : State P)
        → s.receiver ≡ r
        → IsSingle s
        → (r ≡ receiving)
          ⊎ ((p : P) × (r ≡ handling p))
          ⊎ ((u : State P) × (on_ask bad ends r s.next s ≡ some u))
    unfolding on_ask
    receiver_free receiving s h v = inl refl
    receiver_free (handling p) s h v = inr (inl (p, refl))
    receiver_free asking s h v =
        let free : s.next ≡ false = ground arith in
        inr (inr (record s { next = true; receiver = receiving }, rw (free, on_ask)))

    -- While no packet is bad, and whether or not the handlers of packets return, neither goroutine is
    -- ever blocked in a send on the channels between the two: in every reachable state the enqueue
    -- handler is in its select or its send to `dequeue` goes through, and the dequeue handler is in its
    -- receive, inside the handler of a packet, or its send to `next` goes through.
    pub sends_never_block :
        (s : State P)
        → Reach bad ends initial s
        → ((s.sender ≡ selecting) ⊎ ((u : State P) × (step bad ends send s ≡ some u)))
          × ((s.receiver ≡ receiving)
              ⊎ ((p : P) × (s.receiver ≡ handling p))
              ⊎ ((u : State P) × (step bad ends ask s ≡ some u)))
    unfolding step
    sends_never_block s r = (
      sender_free s.sender s refl (Reach-IsSingle r),
      receiver_free s.receiver s refl (Reach-IsSingle r),
    )
