-- ===== src/Peer/Stream.antt =====
-- peer/tcp_peer.go: the read loop of a connection between servers (readHandler without its
-- deferred part), and the writes of a connection.
pub mod Delivery
use fim.Base.{
  ℕ, zero, suc, ◌-◌, ◌/◌, ite, Bool, true, false, not, List, [], ◌∷◌, ◌==◌, if◌then◌else◌, length,
  set, take, Outcome, done, fail, panic, Act, ◌>>=◌, ◌>>◌, Writer,
}
use fim.Wire.Buffer.{Bytes, read_full}
use fim.Peer.OpCode
use fim.Peer.Frame

-- What the code uses of a net.Conn: Write and SetWriteDeadline, which may fail.
pub record NetConn (W : Type 0) : Type 0 where
  pub write : Bytes → Act W (Unit {0})
  pub set_write_deadline : Act W (Unit {0})

instance abbrev pub conn_writer : {W : Type 0} ⦃c : NetConn W⦄ → Writer W
conn_writer ⦃c⦄ = record { write = c.write }

-- What one round of the loop leads to: its end, the next round, or a message for OnMsg first.
pub data Next (W : Type 0) : Type 0 where
  stop : W → Next W
  go : Bytes → W → Next W
  deliver : Bytes → Bytes → W → Next W

-- The loop's messages in their order, the connection's write side, and whether the loop has ended.
pub record Reading (W : Type 0) : Type 0 where
  pub messages : List Bytes
  pub out : W
  pub ended : Bool

abbrev with_message : {W : Type 0} → Bytes → Reading W → Reading W
with_message p r = record r { messages = p ∷ r.messages }

-- The loop on what a round leads to, given its further rounds.
after_round : {W : Type 0} → Next W → (Bytes → W → Reading W) → Reading W
after_round (stop w) more = record { messages = []; out = w; ended = true }
after_round (go rest w) more = more rest w
after_round (deliver p rest w) more = with_message p (more rest w)

module _ {W : Type 0} ⦃c : NetConn W⦄ where
  -- WriteControl
  unfoldable pub write_control : ℕ → Bytes → Act W (Unit {0})
  write_control op_code payload = do
    c.set_write_deadline
    Frame.encode (Frame.new_frame op_code payload)

  -- A ping is answered by a pong; if that cannot be written the loop ends.
  after_ping : Bytes → W → Next W
  after_ping rest w = elim (write_control OpCode.pong [] w) [
    | done _ w' ↦ go rest w'
    | fail _ w' ↦ stop w'
    | panic ↦ stop w
  ]

  -- A payload of `n` bytes goes to OnMsg; an empty one is skipped.
  after_message : ℕ → Bytes → W → Next W
  after_message n rest w = if n == 0 then go rest w else elim (read_full n rest) [
    | done payload rest' ↦ deliver payload rest' w
    | fail _ _ ↦ stop w
    | panic ↦ stop w
  ]

  after_header : Bytes → Bytes → W → Next W
  after_header header rest w =
      if Frame.get_op_code header == OpCode.close
      then stop w
      else if Frame.get_op_code header == OpCode.ping
      then after_ping rest w
      else if Frame.get_op_code header == OpCode.pong
      then go rest w
      else after_message (Frame.get_payload_len header) rest w

  after_read : Outcome Bytes Bytes → W → Next W
  after_read (done header rest) w = after_header header rest w
  after_read (fail e rest) w = stop w
  after_read panic w = stop w

  -- One round.
  read_step : Bytes → W → Next W
  read_step s w = after_read (Frame.decode_header Frame.empty_header s) w

  read_loop : ℕ → Bytes → W → Reading W
  read_loop zero s w = record { messages = []; out = w; ended = false }
  read_loop (suc fuel) s w = after_round (read_step s w) (read_loop fuel)

  -- The loop over everything that the connection brings until it ends. A round that goes on has
  -- taken five bytes of header, so there are at most as many rounds as bytes, and one to end.
  pub read_handler : Bytes → W → Reading W
  unfolding read_loop
  read_handler s w = read_loop (suc (length s)) s w
