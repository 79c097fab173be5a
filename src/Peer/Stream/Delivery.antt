-- ===== src/Peer/Stream/Delivery.antt =====
-- What the read loop delivers of the frames that the other side has written.
use fim.Base.{
  ℕ, zero, suc, ◌^◌, ◌≤◌, ◌<◌, ◌≡◌, refl, true, ◌||◌, List, [], ◌∷◌, ◌++◌, append_assoc, arith,
  ◌==◌, if◌then◌else◌, suc-eq-zero, length, All, length-append, Outcome, done, fail, panic,
}
use fim.Wire.Buffer.{Bytes, read_full-append, Leaves, read_full-Leaves}
use fim.Peer.OpCode
use fim.Peer.Frame.{new_header, get_payload_len}
use fim.Peer.Frame.RoundTrip.{
  frame_bytes, decode_header-read, decode_header-Leaves, decode_header-nil, new_header_parts,
}
use fim.Peer.Stream.{
  NetConn, Next, stop, go, deliver, Reading, write_control, after_ping, after_message, after_header,
  after_read, after_round, read_step, read_loop, read_handler, conn_writer,
}

-- A round that goes on leaves fewer bytes.
abbrev Shrinks : {W : Type 0} → Bytes → Next W → Type 0
Shrinks s (stop w) = Unit {0}
Shrinks s (go rest w) = length rest < length s
Shrinks s (deliver p rest w) = length rest < length s

module _ {W : Type 0} ⦃c : NetConn W⦄ where
  after_ping-Shrinks :
      (s rest : Bytes) (w : W) → length rest < length s → Shrinks s (after_ping rest w)
  unfolding after_ping
  after_ping-Shrinks s rest w h = ground arith

  after_message-Shrinks :
      (s : Bytes) (n : ℕ) (rest : Bytes) (w : W)
      → length rest < length s
      → Shrinks s (after_message n rest w)
  unfolding after_message
  after_message-Shrinks s n rest w h = ground (arith, read_full-Leaves n rest)

  after_header-Shrinks :
      (s header rest : Bytes) (w : W)
      → length rest < length s
      → Shrinks s (after_header header rest w)
  unfolding after_header
  after_header-Shrinks s header rest w h = ground (
    arith,
    after_ping-Shrinks s rest w h,
    after_message-Shrinks s (get_payload_len header) rest w h,
  )

  after_read-Shrinks :
      (s : Bytes) (o : Outcome Bytes Bytes) (w : W) → Leaves 5 s o → Shrinks s (after_read o w)
  unfolding after_read
  after_read-Shrinks s (done header rest) w l =
      after_header-Shrinks s header rest w (omega (arith, l.1))
  after_read-Shrinks s (fail e rest) w l = tt
  after_read-Shrinks s panic w l = tt

  read_step-Shrinks : (s : Bytes) (w : W) → Shrinks s (read_step s w)
  unfolding read_step
  read_step-Shrinks s w = after_read-Shrinks s _ w (decode_header-Leaves s)

  after_round_ended :
      (s : Bytes) (n : Next W) (more : Bytes → W → Reading W)
      → Shrinks s n
      → ((rest : Bytes) (w : W) → length rest < length s → (more rest w).ended ≡ true)
      → (after_round n more).ended ≡ true
  unfolding after_round
  after_round_ended s (stop w) more sh h = refl
  after_round_ended s (go rest w) more sh h = h rest w sh
  after_round_ended s (deliver p rest w) more sh h = h rest w sh

  read_loop_ended :
      (fuel : ℕ) (s : Bytes) (w : W) → length s < fuel → (read_loop fuel s w).ended ≡ true
  unfolding read_loop
  read_loop_ended zero s w h = absurd (omega arith)
  read_loop_ended (suc fuel) s w h =
      after_round_ended s (read_step s w) (read_loop fuel) (read_step-Shrinks s w)
        λ rest w' lt. read_loop_ended fuel rest w' (omega arith)

  -- The read loop ends on whatever the connection brings before its end, and whatever becomes of
  -- the pongs that it writes.
  pub read_handler_ended : (s : Bytes) (w : W) → (read_handler s w).ended ≡ true
  unfolding read_handler
  read_handler_ended s w = read_loop_ended (suc (length s)) s w (omega arith)

-- A frame as its operation and its payload.
abbrev pub Sent : Type 0
Sent = ℕ × Bytes

-- A payload that fits its length, and none on a ping or a pong, as WriteControl sends them.
abbrev pub IsSent : Sent → Type 0
IsSent (op, p) = (length p < 2 ^ 32) × (op ≡ OpCode.ping → p ≡ []) × (op ≡ OpCode.pong → p ≡ [])

abbrev pub stream : List Sent → Bytes
stream [] = []
stream ((op, p) ∷ fs) = frame_bytes op p ++ stream fs

-- The payloads that are meant for OnMsg: those that are not empty, up to a close frame.
abbrev pub delivered : List Sent → List Bytes
delivered [] = []
delivered ((op, p) ∷ fs) =
    let rest = delivered fs in
    if op == OpCode.close
    then []
    else if op == OpCode.ping || op == OpCode.pong || length p == 0
    then rest
    else p ∷ rest

-- The write side after the answers to the pings in front of a close frame.
abbrev pub answered : {W : Type 0} → (W → W) → List Sent → W → W
answered pong [] w = w
answered pong ((op, p) ∷ fs) w =
    let rest = answered pong fs (if op == OpCode.ping then pong w else w) in
    if op == OpCode.close then w else rest

module _ {W : Type 0} ⦃c : NetConn W⦄ (pong : W → W)
    (writable : (w : W) → write_control OpCode.pong [] w ≡ done tt (pong w)) where
  -- One round on a frame.
  round : Sent → Bytes → W → Next W
  round (op, p) rest w =
      if op == OpCode.close
      then stop w
      else if op == OpCode.ping
      then go rest (pong w)
      else if op == OpCode.pong || length p == 0
      then go rest w
      else deliver p rest w

  after_message-full :
      (p rest : Bytes) (w : W)
      → after_message (length p) (p ++ rest) w
        ≡ (if length p == 0 then go rest w else deliver p rest w)
  unfolding after_message
  after_message-full [] rest w = refl
  after_message-full (b ∷ p) rest w = rw (suc-eq-zero (length p), read_full-append (b ∷ p) rest)

  after_ping-pong : (rest : Bytes) (w : W) → after_ping rest w ≡ go rest (pong w)
  unfolding after_ping
  after_ping-pong rest w = rw (writable w, after_ping)

  after_header-round :
      (op : ℕ) (p rest : Bytes) (w : W)
      → IsSent (op, p)
      → after_header (new_header op (length p)) (p ++ rest) w ≡ round (op, p) rest w
  unfolding after_header round
  after_header-round op p rest w s =
      let (code, len, _) = new_header_parts op (length p) s.0 in
      rw (code, len, after_message-full p rest w)
        (ground (arith, s.1, s.2, after_ping-pong (p ++ rest) w))

  read_step-round :
      (f : Sent) (rest : Bytes) (w : W)
      → IsSent f
      → read_step (frame_bytes f.0 f.1 ++ rest) w ≡ round f rest w
  unfolding read_step
  read_step-round (op, p) rest w s =
      rw
        (
          append_assoc (new_header op (length p)) p rest,
          decode_header-read op (length p) (p ++ rest) s.0,
        )
        (unfold after_read in after_header-round op p rest w s)

  abbrev outcome : List Sent → W → Reading W
  outcome fs w = record { messages = delivered fs; out = answered pong fs w; ended = true }

  after_round-stream :
      (f : Sent) (fs : List Sent) (w : W) (more : Bytes → W → Reading W)
      → more (stream fs) w ≡ outcome fs w
      → more (stream fs) (pong w) ≡ outcome fs (pong w)
      → after_round (round f (stream fs) w) more ≡ outcome (f ∷ fs) w
  unfolding round after_round
  after_round-stream (op, p) fs w more h hp = ground arith

  after_round-stop :
      (w : W) (more : Bytes → W → Reading W) → after_round (stop w) more ≡ outcome [] w
  unfolding after_round
  after_round-stop w more = refl

  read_step-end : (w : W) → read_step [] w ≡ stop w
  unfolding read_step after_read
  read_step-end w = rw decode_header-nil

  read_loop-stream :
      (fs : List Sent) (fuel : ℕ) (w : W)
      → All IsSent fs
      → length fs < fuel
      → read_loop fuel (stream fs) w ≡ outcome fs w
  unfolding read_loop
  read_loop-stream fs zero w s h = absurd (omega arith)
  read_loop-stream [] (suc fuel) w s h = rw (read_step-end w, after_round-stop)
  read_loop-stream ((op, p) ∷ fs) (suc fuel) w s h =
      rw (read_step-round (op, p) (stream fs) w s.0) (
        after_round-stream (op, p) fs w (read_loop fuel)
          (read_loop-stream fs fuel w s.1 (omega arith))
          (read_loop-stream fs fuel (pong w) s.1 (omega arith)))

  length-stream : (fs : List Sent) → All IsSent fs → length fs ≤ length (stream fs)
  length-stream [] s = omega arith
  length-stream ((op, p) ∷ fs) s = omega (
    arith,
    length-stream fs s.1,
    length-append (frame_bytes op p) (stream fs),
    length-append (new_header op (length p)) p,
    (new_header_parts op (length p) s.0.0).2,
  )

  -- Frames of payloads of fewer than 2 ^ 32 bytes, pings and pongs without one, on a connection
  -- where the pongs can be written: the read loop hands OnMsg the payloads that are not empty, in
  -- their order, up to the first close frame or the end of the connection, writes one pong for each
  -- ping before that, and ends.
  pub read_handler-stream :
      (fs : List Sent) (w : W)
      → All IsSent fs
      → read_handler (stream fs) w
        ≡ record { messages = delivered fs; out = answered pong fs w; ended = true }
  unfolding read_handler
  read_handler-stream fs w s =
      read_loop-stream fs (suc (length (stream fs))) w s (omega (arith, length-stream fs s))
