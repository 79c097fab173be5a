-- ===== src/Peer/Server/Heartbeat.antt =====
-- peer/tcp_peer.go: heartbeat, the pings of the connecting side.
use fim.Base.{
  ℕ, zero, suc, ◌≡◌, refl, ap, ◌∙◌, true, List, [], ◌++◌, append-nil, append_assoc, arith,
  replicate, All, done, fail, panic,
}
use fim.Wire.Buffer.{Bytes}
use fim.Peer.OpCode
use fim.Peer.Frame.RoundTrip.{frame_bytes}
use fim.Peer.Stream.{NetConn, read_handler, write_control}
use fim.Peer.Stream.Delivery.{Sent, IsSent, stream, delivered, answered, read_handler-stream}

-- heartbeat over so many ticks: one ping for each, up to the first that cannot be written.
pub heartbeat : {W : Type 0} ⦃c : NetConn W⦄ → ℕ → W → W
heartbeat zero w = w
heartbeat (suc ticks) w = elim (write_control OpCode.ping [] w) [
  | done _ w' ↦ heartbeat ticks w'
  | fail _ w' ↦ w'
  | panic ↦ w
]

abbrev pub pings : ℕ → List Sent
pings n = replicate n (OpCode.ping, [])

pings-IsSent : (n : ℕ) → All IsSent (pings n)
pings-IsSent zero = tt
pings-IsSent (suc n) = ((omega arith, (λ e. refl), (λ e. refl)), pings-IsSent n)

delivered-pings : (n : ℕ) → delivered (pings n) ≡ []
delivered-pings zero = refl
delivered-pings (suc n) = delivered-pings n

module _ (near : NetConn Bytes)
    (writes : (w : Bytes)
      → write_control ⦃c = near⦄ OpCode.ping [] w ≡ done tt (w ++ frame_bytes OpCode.ping [])) where
  heartbeat-stream : (n : ℕ) (w : Bytes) → heartbeat ⦃c = near⦄ n w ≡ w ++ stream (pings n)
  unfolding heartbeat
  heartbeat-stream zero w = rw append-nil
  heartbeat-stream (suc n) w =
      rw (writes w, heartbeat)
        (heartbeat-stream n (w ++ frame_bytes OpCode.ping [])
          ∙ append_assoc w (frame_bytes OpCode.ping []) (stream (pings n)))

  -- A connection that takes every ping, and another end that can write its pongs: after any number of
  -- ticks the read loop at the other end has handed on nothing, has written one pong for each ping, and
  -- has ended with the connection.
  pub read_handler-heartbeat :
      {V : Type 0} (far : NetConn V) (pong : V → V) (n : ℕ) (v : V)
      → ((u : V) → write_control ⦃c = far⦄ OpCode.pong [] u ≡ done tt (pong u))
      → read_handler ⦃c = far⦄ (heartbeat ⦃c = near⦄ n []) v
        ≡ record { messages = []; out = answered pong (pings n) v; ended = true }
  read_handler-heartbeat far pong n v writable = rw (heartbeat-stream n []) (
      read_handler-stream ⦃c = far⦄ pong writable (pings n) v (pings-IsSent n)
      ∙ ap (λ ms. record { messages = ms; out = answered pong (pings n) v; ended = true })
          (delivered-pings n))
