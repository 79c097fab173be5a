-- ===== src/Gateway/Queue/Order.antt =====
-- The queue keeps the order of the packets, and loses none.
use fim.Base.{
  ◌≡◌, refl, subst, Bool, true, false, Option, none, some, List, [], ◌∷◌, ◌++◌, append-nil,
  append_assoc, arith,
}
use fim.Gateway.Queue.{
  State, Sender, Receiver, selecting, sending, receiving, handling, asking, Move, submit,
  take_packet, take_next, send, receive, finish, ask, initial, step, Reach, here, later, put,
  on_enqueue, queue_packet, on_next, next_packet, on_send, on_dequeue, on_packet, on_handled,
  on_ask,
}

module _ {P : Type 0} where
  abbrev pub held : Option P → List P
  held none = []
  held (some p) = p ∷ []

  abbrev pub in_sender : Sender P → List P
  in_sender selecting = []
  in_sender (sending p) = p ∷ []

  abbrev pub in_receiver : Receiver P → List P
  in_receiver receiving = []
  in_receiver (handling p) = p ∷ []
  in_receiver asking = []

  -- The packets on their way, the oldest first.
  abbrev pub in_flight : State P → List P
  in_flight s =
      in_receiver s.receiver
      ++ (held s.dequeue ++ (in_sender s.sender ++ (s.pending_msgs ++ held s.enqueue)))

  abbrev pub IsOrdered : State P → Type 0
  IsOrdered s = s.submitted ≡ s.finished ++ in_flight s

  -- While no packet is waited for, none is pending.
  pub record Inv (s : State P) : Type 0 where
    pub ordered : IsOrdered s
    pub quiet : s.waiting ≡ false → s.pending_msgs ≡ []

  abbrev pub Holds : (State P → Type 0) → Option (State P) → Type 0
  Holds Q none = Unit {0}
  Holds Q (some u) = Q u

  snoc_flight :
      (f r d q l : List P) (p : P)
      → (f ++ (r ++ (d ++ (q ++ (l ++ []))))) ++ (p ∷ [])
        ≡ f ++ (r ++ (d ++ (q ++ (l ++ (p ∷ [])))))
  snoc_flight f r d q l p = simp (append_assoc, append-nil)

  module _ (bad ends : P → Bool) where
    put-Inv :
        (p : P) (e : Option P) (s : State P) → s.enqueue ≡ e → Inv s → Holds Inv (put bad ends p s)
    unfolding put
    put-Inv p none s h v = ground (
      arith,
      snoc_flight s.finished (in_receiver s.receiver) (held s.dequeue) (in_sender s.sender)
          s.pending_msgs p,
    )
    put-Inv p (some x) s h v = ground arith

    on_enqueue-Inv :
        (x : Sender P) (e : Option P) (s : State P)
        → s.sender ≡ x
        → s.enqueue ≡ e
        → Inv s
        → Holds Inv (on_enqueue bad ends x e s)
    unfolding on_enqueue queue_packet
    on_enqueue-Inv selecting (some p) s hx he v =
        ground (arith, append-nil s.pending_msgs, append-nil (s.pending_msgs ++ (p ∷ [])))
    on_enqueue-Inv selecting none s hx he v = tt
    on_enqueue-Inv (sending q) e s hx he v = tt

    next_packet-Inv :
        (l : List P) (s : State P)
        → s.sender ≡ selecting
        → s.pending_msgs ≡ l
        → Inv s
        → Inv (next_packet bad ends l (record s { next = false }))
    unfolding next_packet
    next_packet-Inv [] s hx hl v = ground arith
    next_packet-Inv (p ∷ ps) s hx hl v = record {
      ordered = ground arith;
      quiet = λ w. cc (v.quiet w);
    }

    on_next-Inv :
        (x : Sender P) (n : Bool) (s : State P)
        → s.sender ≡ x
        → Inv s
        → Holds Inv (on_next bad ends x n s)
    unfolding on_next
    on_next-Inv selecting true s hx v = next_packet-Inv s.pending_msgs s hx refl v
    on_next-Inv selecting false s hx v = tt
    on_next-Inv (sending q) n s hx v = tt

    on_send-Inv :
        (x : Sender P) (d : Option P) (s : State P)
        → s.sender ≡ x
        → s.dequeue ≡ d
        → Inv s
        → Holds Inv (on_send bad ends x d s)
    unfolding on_send
    on_send-Inv (sending p) none s hx hd v = ground arith
    on_send-Inv (sending p) (some q) s hx hd v = tt
    on_send-Inv selecting d s hx hd v = tt

    on_dequeue-Inv :
        (r : Receiver P) (d : Option P) (s : State P)
        → s.receiver ≡ r
        → s.dequeue ≡ d
        → Inv s
        → Holds Inv (on_dequeue bad ends r d s)
    unfolding on_dequeue on_packet
    on_dequeue-Inv receiving (some p) s hr hd v = ground (
      arith,
      append_assoc s.finished (p ∷ []) (in_sender s.sender ++ (s.pending_msgs ++ held s.enqueue)),
    )
    on_dequeue-Inv receiving none s hr hd v = tt
    on_dequeue-Inv (handling q) d s hr hd v = tt
    on_dequeue-Inv asking d s hr hd v = tt

    on_handled-Inv :
        (r : Receiver P) (s : State P)
        → s.receiver ≡ r
        → Inv s
        → Holds Inv (on_handled bad ends r s)
    unfolding on_handled
    on_handled-Inv (handling p) s hr v = ground (
      arith,
      append_assoc s.finished (p ∷ [])
          (held s.dequeue ++ (in_sender s.sender ++ (s.pending_msgs ++ held s.enqueue))),
    )
    on_handled-Inv receiving s hr v = tt
    on_handled-Inv asking s hr v = tt

    on_ask-Inv :
        (r : Receiver P) (n : Bool) (s : State P)
        → s.receiver ≡ r
        → Inv s
        → Holds Inv (on_ask bad ends r n s)
    unfolding on_ask
    on_ask-Inv asking false s hr v = ground arith
    on_ask-Inv asking true s hr v = tt
    on_ask-Inv receiving n s hr v = tt
    on_ask-Inv (handling p) n s hr v = tt

    step-Inv : (m : Move P) (s : State P) → Inv s → Holds Inv (step bad ends m s)
    unfolding step
    step-Inv (submit p) s v = put-Inv p s.enqueue s refl v
    step-Inv take_packet s v = on_enqueue-Inv s.sender s.enqueue s refl refl v
    step-Inv take_next s v = on_next-Inv s.sender s.next s refl v
    step-Inv send s v = on_send-Inv s.sender s.dequeue s refl refl v
    step-Inv receive s v = on_dequeue-Inv s.receiver s.dequeue s refl refl v
    step-Inv finish s v = on_handled-Inv s.receiver s refl v
    step-Inv ask s v = on_ask-Inv s.receiver s.next s refl v

    initial-Inv : Inv initial
    unfolding initial
    initial-Inv = record { ordered = refl; quiet = λ _. refl }

    pub Reach-Inv : {s : State P} → Reach bad ends initial s → Inv s
    Reach-Inv here = initial-Inv
    Reach-Inv (later {t} {u} m r e) = subst (Holds Inv) e (step-Inv m t (Reach-Inv r))

  -- In every state that the two goroutines can reach, the packets put in so far are, in their order,
  -- those finished with, followed by those that are still on their way: no packet is lost, doubled
  -- or overtaken.
  pub Reach-ordered :
      (bad ends : P → Bool) (s : State P)
      → Reach bad ends initial s
      → s.submitted ≡ s.finished ++ in_flight s
  Reach-ordered bad ends s r = (Reach-Inv bad ends r).ordered
