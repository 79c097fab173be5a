-- ===== src/Peer/Client/Identity.antt =====
-- The operations of a client change its connection and its state, and nothing else.
use fim.Base.{◌≡◌, refl, ◌≢◌, arith, Outcome, done, fail, panic, and_then}
use fim.Wire.Buffer.{Bytes}
use fim.Peer.Client.{WsConn, WsClient, push, on_conn, write_message}

abbrev pub SameId : {K C A : Type 0} → K → Outcome (WsClient K C) A → Type 0
SameId k (done a c) = c.id ≡ k
SameId k (fail e c) = c.id ≡ k
SameId k panic = ⊥

-- The calls of the websocket library give a result or an error; they do not panic.
pub record NoPanic {C : Type 0} (ws : WsConn C) : Type 0 where
  pub binary : (p : Bytes) (c : C) → ws.write_server_binary p c ≢ panic
  pub deadline : (c : C) → ws.set_write_deadline c ≢ panic

module _ {C : Type 0} ⦃ws : WsConn C⦄ where
  write_message-ne-panic : NoPanic ws → (p : Bytes) (c : C) → write_message p c ≢ panic
  unfolding write_message
  write_message-ne-panic n p c = go (ws.set_write_deadline c) refl
    where
      go :
          (o : Outcome C (Unit {0}))
          → ws.set_write_deadline c ≡ o
          → and_then o (λ _. ws.write_server_binary p) ≢ panic
      go (done _ c') e = n.binary p c'
      go (fail x c') e = λ h. cc
      go panic e = λ h. n.deadline c e

module _ {K C : Type 0} ⦃ws : WsConn C⦄ where
  pub push-SameId : NoPanic ws → (p : Bytes) (c : WsClient K C) → SameId c.id (push p c)
  unfolding push on_conn
  push-SameId n p c = ground (arith, write_message-ne-panic n p c.conn)
