-- ===== src/Gateway/Queue/Tests.antt =====
-- The theorems about the queue on a run with concrete packets.
use fim.Base.{ℕ, ◌≡◌, refl, ◌⊎◌, Bool, true, false, none, some, [], ◌∷◌, ◌++◌, ◌==◌}
use fim.Gateway.Queue.{
  State, submit, take_packet, send, receive, ask, selecting, receiving, handling, initial, step,
  Reach, here, later, put, on_enqueue, queue_packet, on_send, on_dequeue, on_packet,
}
use fim.Gateway.Queue.Order.{in_flight, Reach-ordered}
use fim.Gateway.Queue.Tokens.{sends_never_block}
use fim.Gateway.Queue.Drain.{Reach-drained}
use fim.Gateway.Queue.Stall.{bad_packet_stalls}

abbrev none_bad : ℕ → Bool
none_bad p = false

abbrev all_end : ℕ → Bool
all_end p = true

-- The packet 9 is bad.
abbrev nine_bad : ℕ → Bool
nine_bad p = p == 9

-- One packet is on its way to the dequeue handler, and one is put in behind it.
abbrev two_packets : State ℕ
two_packets = record {
  enqueue = some 4;
  dequeue = some 3;
  next = false;
  pending_msgs = [];
  waiting = true;
  sender = selecting;
  receiver = receiving;
  submitted = 3 ∷ 4 ∷ [];
  finished = [];
}

Reach-two_packets : Reach none_bad all_end initial two_packets
unfolding initial step put on_enqueue queue_packet on_send
Reach-two_packets =
    later (submit 4) (later send (later take_packet (later (submit 3) here refl) refl) refl) refl

Reach-ordered_example : two_packets.submitted ≡ two_packets.finished ++ in_flight two_packets
Reach-ordered_example = Reach-ordered none_bad all_end two_packets Reach-two_packets

Reach-drained_example :
    (t : State ℕ) × Reach none_bad all_end two_packets t
    × (t.finished ≡ two_packets.submitted)
    × (in_flight t ≡ [])
Reach-drained_example =
    Reach-drained none_bad all_end (λ p. refl) (λ p. refl) two_packets Reach-two_packets

sends_never_block_example :
    ((two_packets.sender ≡ selecting)
      ⊎ ((u : State ℕ) × (step none_bad all_end send two_packets ≡ some u)))
    × ((two_packets.receiver ≡ receiving)
        ⊎ ((p : ℕ) × (two_packets.receiver ≡ handling p))
        ⊎ ((u : State ℕ) × (step none_bad all_end ask two_packets ≡ some u)))
sends_never_block_example =
    sends_never_block none_bad all_end (λ p. refl) two_packets Reach-two_packets

-- The bad packet in front of another one.
abbrev bad_in_front : State ℕ
bad_in_front = record two_packets { dequeue = some 9; submitted = 9 ∷ 4 ∷ [] }

abbrev bad_taken : State ℕ
bad_taken = record bad_in_front { dequeue = none; finished = 9 ∷ [] }

abbrev four_left : State ℕ
four_left = record bad_taken { enqueue = none; pending_msgs = 4 ∷ [] }

step-receive_bad : step nine_bad all_end receive bad_in_front ≡ some bad_taken
unfolding step on_dequeue on_packet
step-receive_bad = refl

Reach-four_left : Reach nine_bad all_end bad_taken four_left
unfolding step on_enqueue queue_packet
Reach-four_left = later take_packet here refl

bad_packet_stalls_example : four_left.finished ≡ bad_in_front.finished ++ (9 ∷ [])
bad_packet_stalls_example =
    bad_packet_stalls nine_bad all_end bad_in_front bad_taken four_left 9 refl refl refl refl refl
      refl step-receive_bad Reach-four_left
