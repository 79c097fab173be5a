-- ===== src/Gateway/Upgrader/Listening.antt =====
-- gateway/wss/hub.go: the loop of listen behind the listener, whose connections are upgraded by the
-- jobs of a pool.
use fim.Base.{Bool, true, false, Option, none, some, List, if◌then◌else◌}
use fim.Wire.Buffer.{Bytes}
use fim.Wire.Ksuid.{Ksuids}
use fim.Peer.Client.{WsConn}
use fim.Gateway.Hub.{Gateway, Packet, is_open}
use fim.Gateway.Upgrader.Connection.{Upgraded, Request, Packages, upgrade_conn}

-- A connection with its remote address and its request.
pub record Accepted (C : Type 0) : Type 0 where
  pub conn : C
  pub remote_addr : Bytes
  pub request : Option Request

-- What a round does: it returns, goes on after an error of Accept, or puts a job into the pool.
pub data Round (C : Type 0) : Type 0 where
  returns next : Round C
  job : Accepted C → Round C

module _ {K C : Type 0} ⦃ks : Ksuids K⦄ ⦃ws : WsConn C⦄ where
  pub listen_round : Option (Accepted C) → Gateway K C → Round C
  listen_round accepted g =
      if is_open g then elim accepted [ none ↦ next | some a ↦ job a ] else returns

  -- A job of the pool, with whether it closes the connection; `none` is a panic.
  unfoldable pub upgrade_job :
      {V : Type 0}
      → Packages V
      → K
      → Accepted C
      → Gateway K C
      → List (Packet K C)
      → Option (Upgraded K C × Bool)
  upgrade_job pk id a g enqueued =
      elim (upgrade_conn pk id a.conn a.remote_addr a.request g enqueued) [
        | none ↦ none
        | some u ↦ some (u, elim u.err [ none ↦ false | some _ ↦ true ])
      ]
