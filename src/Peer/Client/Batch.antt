-- ===== src/Peer/Client/Batch.antt =====
-- A websocket payload that holds several messages of the protocol.
use fim.Base.{
  ℕ, zero, suc, ◌≤◌, ◌<◌, ◌≡◌, ap, Bool, true, List, [], ◌∷◌, ◌++◌, arith, ◌==◌, if◌then◌else◌,
  length, All, length-append, done,
}
use fim.Wire.Buffer.{Bytes}
use fim.Wire.Header
use fim.Wire.Message
use fim.Wire.Message.{Message, bytes}
use fim.Wire.Message.RoundTrip.{decode-nil, IsFramed, decode-bytes, bytes-parts}
use fim.Wire.Pid
use fim.Peer.Client.{
  WsConn, Handled, ignoring, answer_ping, after_decode, handle_loop, handle_message, write_message,
}

abbrev pub batch : List Message → Bytes
batch [] = []
batch (m ∷ ms) = bytes m ++ batch ms

abbrev pub is_ping : Message → Bool
is_ping m = Header.get_pid m.header == Pid.ping

-- The messages that are no pings.
abbrev pub relayed : List Message → List Message
relayed [] = []
relayed (m ∷ ms) = let rest = relayed ms in if is_ping m then rest else m ∷ rest

length-batch : (ms : List Message) → All IsFramed ms → length ms ≤ length (batch ms)
length-batch [] f = omega arith
length-batch (m ∷ ms) f = omega (
  arith,
  length-batch ms f.1,
  length-append (bytes m) (batch ms),
  ap length (bytes-parts m),
  length-append m.header m.payload,
  f.0.header,
)

module _ {C : Type 0} ⦃ws : WsConn C⦄ where
  -- The connection after one answer for each ping.
  abbrev pub answered : List Message → C → C
  answered [] c = c
  answered (m ∷ ms) c = answered ms (
      if is_ping m
      then ignoring ws.set_read_deadline (ignoring (write_message Message.pong) c)
      else c)

  abbrev outcome : List Message → C → Handled C
  outcome ms c = record { messages = relayed ms; conn = answered ms c; ended = true }

  after_decode-message :
      (m : Message) (ms : List Message) (c : C) (more : Bytes → C → Handled C)
      → ((c' : C) → more (batch ms) c' ≡ outcome ms c')
      → after_decode (done m (batch ms)) c more ≡ outcome (m ∷ ms) c
  unfolding after_decode answer_ping
  after_decode-message m ms c more h =
      ground
        (arith, h c, h (ignoring ws.set_read_deadline (ignoring (write_message Message.pong) c)))

  handle_loop-end : (fuel : ℕ) (c : C) → handle_loop (suc fuel) [] c ≡ outcome [] c
  unfolding handle_loop after_decode
  handle_loop-end fuel c = rw decode-nil

  handle_loop-batch :
      (ms : List Message) (fuel : ℕ) (c : C)
      → All IsFramed ms
      → length ms < fuel
      → handle_loop fuel (batch ms) c ≡ outcome ms c
  unfolding handle_loop
  handle_loop-batch ms zero c f h = absurd (omega arith)
  handle_loop-batch [] (suc fuel) c f h = handle_loop-end fuel c
  handle_loop-batch (m ∷ ms) (suc fuel) c f h = rw (decode-bytes m (batch ms) f.0) (
      after_decode-message m ms c (handle_loop fuel)
        λ c'. handle_loop-batch ms fuel c' f.1 (omega arith))

  -- Messages of ten-byte headers that count their payloads, one behind the other in one payload:
  -- handleMessage hands OnMsg those that are no pings, in their order, answers each ping by a pong
  -- and a new read deadline, errors of which it ignores, and ends.
  pub handle_message-batch :
      (ms : List Message) (c : C)
      → All IsFramed ms
      → handle_message (batch ms) c
        ≡ record { messages = relayed ms; conn = answered ms c; ended = true }
  unfolding handle_message
  handle_message-batch ms c f =
      handle_loop-batch ms (suc (length (batch ms))) c f (omega (arith, length-batch ms f))
