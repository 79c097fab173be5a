-- ===== src/Peer/Server/Delivery.antt =====
-- What one server pushes and the other one's read loop delivers.
use fim.Base.{
  ℕ, ◌^◌, ◌<◌, ◌≡◌, refl, ap, ap₂, ◌∙◌, ◌⊎◌, inl, inr, true, some, List, [], ◌∷◌, ◌++◌, map,
  append-nil, append_assoc, arith, ◌==◌, if◌then◌else◌, Bool-cases, length, All, peer_is_closed,
  done, fail, Act, ◌>>◌, return,
}
use fim.Wire.Buffer.{Bytes, buffer}
use fim.Peer.OpCode
use fim.Peer.Frame.{new_frame}
use fim.Peer.Frame.RoundTrip.{frame_bytes, encode-new_frame}
use fim.Peer.Stream.{NetConn, read_handler, write_control}
use fim.Peer.Stream.Delivery.{Sent, IsSent, stream, delivered, answered, read_handler-stream}
use fim.Peer.Server.{Server, server_started, write_frame, push}

-- A connection that takes every write, and whose state is what has been written.
pub record IsOpen (c : NetConn Bytes) : Type 0 where
  pub deadline : (w : Bytes) → c.set_write_deadline w ≡ done tt w
  pub write : (p w : Bytes) → c.write p w ≡ done tt (w ++ p)

-- The payloads pushed one after the other, up to the first error.
unfoldable pub push_all : {K W : Type 0} ⦃c : NetConn W⦄ → List Bytes → Act (Server K W) (Unit {0})
push_all [] = return tt
push_all (p ∷ ps) = do push p; push_all ps

abbrev pub messages : List Bytes → List Sent
messages ps = map (λ p. (OpCode.message, p)) ps

-- The payloads that are not empty.
abbrev pub not_empty : List Bytes → List Bytes
not_empty [] = []
not_empty (p ∷ ps) = let rest = not_empty ps in if length p == 0 then rest else p ∷ rest

abbrev pub IsShort : Bytes → Type 0
IsShort p = length p < 2 ^ 32

pub messages-IsSent : (ps : List Bytes) → All IsShort ps → All IsSent (messages ps)
messages-IsSent [] short = tt
messages-IsSent (p ∷ ps) short = (
  (short.0, (λ e. absurd (omega arith)), (λ e. absurd (omega arith))),
  messages-IsSent ps short.1,
)

pub delivered-messages : (ps : List Bytes) → delivered (messages ps) ≡ not_empty ps
delivered-messages [] = refl
delivered-messages (p ∷ ps) = ground (arith, delivered-messages ps)

pub answered-messages :
    {V : Type 0} (pong : V → V) (ps : List Bytes) (v : V) → answered pong (messages ps) v ≡ v
answered-messages pong [] v = refl
answered-messages pong (p ∷ ps) v = answered-messages pong ps v

module _ ⦃c : NetConn Bytes⦄ (is_open : IsOpen c) where
  write_frame-new :
      (op : ℕ) (p w : Bytes)
      → IsShort p
      → write_frame (new_frame op p) w ≡ done tt (w ++ frame_bytes op p)
  unfolding write_frame
  write_frame-new op p w short =
      rw (is_open.deadline w)
        (rw (encode-new_frame op p [] short) (is_open.write (frame_bytes op p) w))

module _ {K : Type 0} ⦃c : NetConn Bytes⦄ (is_open : IsOpen c) where
  pub push-frame :
      (p w : Bytes) (s : Server K Bytes)
      → s.state ≡ server_started
      → s.conn ≡ some w
      → IsShort p
      → push p s ≡ done tt (record s { conn = some (w ++ frame_bytes OpCode.message p) })
  unfolding push
  push-frame p w s started there short =
      rw (started, there) (rw (write_frame-new is_open OpCode.message p w short))

  -- A Push on a connection leaves a connection, on every state of the server.
  pub push-connected :
      (p w : Bytes) (s : Server K Bytes)
      → s.conn ≡ some w
      → IsShort p
      → (s' : Server K Bytes) × (out : Bytes) × (s'.conn ≡ some out)
        × ((push p s ≡ done tt s') ⊎ (push p s ≡ fail peer_is_closed s'))
  unfolding push
  push-connected p w s there short = elim (Bool-cases (s.state == server_started)) [
    | inl e ↦
        let out = w ++ frame_bytes OpCode.message p in
        let started : s.state ≡ server_started = ground (arith, e) in
        (record s { conn = some out }, out, refl, inl (push-frame p w s started there short))
    | inr e ↦ (s, w, there, inr (rw e))
  ]

  push_all-stream :
      (ps : List Bytes) (w : Bytes) (s : Server K Bytes)
      → s.state ≡ server_started
      → s.conn ≡ some w
      → All IsShort ps
      → push_all ps s ≡ done tt (record s { conn = some (w ++ stream (messages ps)) })
  unfolding push_all
  push_all-stream [] w s started there short =
      rw append-nil (ap (λ x. done tt (record s { conn = x })) there)
  push_all-stream (p ∷ ps) w s started there short = rw (push-frame p w s started there short.0) (
      push_all-stream ps (w ++ frame_bytes OpCode.message p)
        (record s { conn = some (w ++ frame_bytes OpCode.message p) }) started refl short.1
      ∙ ap (λ x. done tt (record s { conn = some x }))
          (append_assoc w (frame_bytes OpCode.message p) (stream (messages ps))))

-- A started connection that takes every write, and payloads of fewer than 2 ^ 32 bytes, pushed one
-- after the other: every Push succeeds, and the read loop at the other end, on the bytes that have
-- been written, hands OnMsg exactly the payloads that are not empty, in their order, writes nothing
-- itself, and ends.
pub read_handler-push_all :
    {K V : Type 0} (near : NetConn Bytes) (far : NetConn V) (pong : V → V) (s : Server K Bytes)
    (ps : List Bytes) (v : V)
    → IsOpen near
    → ((u : V) → write_control ⦃c = far⦄ OpCode.pong [] u ≡ done tt (pong u))
    → s.state ≡ server_started
    → s.conn ≡ some []
    → All IsShort ps
    → (out : Bytes) × (push_all ⦃c = near⦄ ps s ≡ done tt (record s { conn = some out }))
      × (read_handler ⦃c = far⦄ out v ≡ record { messages = not_empty ps; out = v; ended = true })
read_handler-push_all near far pong s ps v is_open writable started there short = (
  stream (messages ps),
  push_all-stream ⦃c = near⦄ is_open ps [] s started there short,
  read_handler-stream ⦃c = far⦄ pong writable (messages ps) v (messages-IsSent ps short)
      ∙ ap₂ (λ ms u. record { messages = ms; out = u; ended = true }) (delivered-messages ps)
          (answered-messages pong ps v),
)
