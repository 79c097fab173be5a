-- ===== src/Peer/Server/Lifecycle.antt =====
-- The states that a server connection goes through, with the goroutines that work on it in any order.
use fim.Base.{
  ℕ, ◌+◌, ◌≤◌, ◌≡◌, refl, some, List, [], ◌∷◌, arith, ◌==◌, if◌then◌else◌, Outcome, done, fail,
  panic, Act,
}
use fim.Wire.Buffer.{Bytes}
use fim.Peer.OpCode
use fim.Peer.Stream.{NetConn, write_control}
use fim.Peer.Server.{
  Server, Side, new_server, start, server_closed, server_started, begin_start, end_start, end_read,
  close, on_conn, dropping,
}

-- What the goroutines do with the state: Start up to its goroutines, the end of Start, the end of a
-- read loop, and Close.
pub data Move (W : Type 0) : Type 0 where
  begins : W → Side → Move W
  started ends closes : Move W

-- The server behind a call, whether or not it fails.
abbrev after : {K W : Type 0} → Server K W → Outcome (Server K W) (Unit {0}) → Server K W
after p (done _ p') = p'
after p (fail _ p') = p'
after p panic = p

module _ {K W : Type 0} ⦃c : NetConn W⦄ where
  pub step : Move W → Server K W → Server K W
  step (begins w side) p = after p (begin_start (some w) side p)
  step started p = after p (end_start p)
  step ends p = end_read p
  step closes p = close p

  pub run : List (Move W) → Server K W → Server K W
  unfolding step
  run [] p = p
  run (m ∷ ms) p = run ms (step m p)

  -- How often Start has got as far as its goroutines.
  abbrev begun : Move W → Server K W → ℕ
  begun (begins w side) p = if p.state == server_closed then 1 else 0
  begun _ p = 0

  abbrev pub starts : List (Move W) → Server K W → ℕ
  starts [] p = 0
  starts (m ∷ ms) p = begun m p + starts ms (step m p)

  -- One unit for a connection that is not closed yet.
  abbrev pub open_now : Server K W → ℕ
  open_now p = if p.state == server_closed then 0 else 1

  dropping_keeps :
      (m : Act W (Unit {0})) (p : Server K W)
      → ((dropping p (on_conn m p)).closes ≡ p.closes)
        × ((dropping p (on_conn m p)).disconnects ≡ p.disconnects)
  dropping_keeps m p = ground arith

  close_balance :
      (p : Server K W)
      → ((close p).closes + open_now (close p) ≡ p.closes + open_now p)
        × ((close p).disconnects ≡ p.disconnects)
        × (p.closes ≤ (close p).closes)
  unfolding close
  close_balance p = ground (arith, dropping_keeps (write_control OpCode.close []) p)

  step_balance :
      (m : Move W) (p : Server K W)
      → ((step m p).closes + open_now (step m p) ≡ p.closes + open_now p + begun m p)
        × (p.disconnects ≤ p.closes → (step m p).disconnects ≤ (step m p).closes)
  unfolding step begin_start end_start end_read
  step_balance (begins w side) p = ground arith
  step_balance started p = ground arith
  step_balance ends p = ground arith
  step_balance closes p =
      let (balance, same, more) = close_balance p in
      (omega (arith, balance), λ h. omega (arith, h, same, more))

  run_balance :
      (ms : List (Move W)) (p : Server K W)
      → ((run ms p).closes + open_now (run ms p) ≡ p.closes + open_now p + starts ms p)
        × (p.disconnects ≤ p.closes → (run ms p).disconnects ≤ (run ms p).closes)
  unfolding run
  run_balance [] p = (omega arith, λ h. h)
  run_balance (m ∷ ms) p =
      let (one, less) = step_balance m p in
      let (rest, fewer) = run_balance ms (step m p) in
      (omega (arith, one, rest), λ h. fewer (less h))

  -- In whatever order the calls of Start and Close and the ends of read loops come, on a new server:
  -- each Start that gets as far as its goroutines is followed by exactly one Close of its connection,
  -- unless that connection is the last one and still open, and OnDisconnect is sent at most once for
  -- each closed connection.
  pub run-closes :
      (ms : List (Move W)) (id : K) (meta : Bytes)
      → ((run ms (new_server id meta)).closes + open_now (run ms (new_server id meta))
          ≡ starts ms (new_server id meta))
        × ((run ms (new_server id meta)).disconnects ≤ (run ms (new_server id meta)).closes)
  unfolding new_server
  run-closes ms id meta =
      let (balance, fewer) = run_balance ms (new_server id meta) in
      (omega (arith, balance), fewer (omega arith))

  -- A read loop that ends before the end of Start: the server is started all the same, its connection
  -- is not closed, and OnDisconnect is not sent, as if it were read from.
  pub ends-before_started :
      (w : W) (side : Side) (id : K) (meta : Bytes)
      → run (begins w side ∷ ends ∷ started ∷ []) (new_server id meta)
        ≡ run (begins w side ∷ started ∷ []) (new_server id meta)
  unfolding run step begin_start end_start end_read new_server
  ends-before_started w side id meta = refl

-- Start on a closed server.
pub start-closed :
    {K W : Type 0} (w : W) (side : Side) (p : Server K W)
    → p.state ≡ server_closed
    → start (some w) side p
      ≡ done tt (record p { conn = some w; side = side; state = server_started })
unfolding start begin_start end_start
start-closed w side p e = ground arith
