-- ===== src/Handler.antt =====
-- server/handler/handler.go: MessageHandler, which gives the packets that a logic server has read to
-- the handlers of their protocols, and forwards messages to gateways.
pub mod Pools
pub mod Starved
pub mod Dispatch
pub mod Forwarding
pub mod Samples
mod Tests
use fim.Base.{
  ℕ, ◌+◌, ◌-◌, ◌*◌, ◌/◌, ap, Bool, true, false, not, Option, none, some, List, [], ◌∷◌, ◌++◌, map,
  ◌==◌, if◌then◌else◌, length, set, take, drop, Error, Outcome, done, fail, panic, Act, return,
}
use fim.Wire.Buffer.{Bytes}
use fim.Wire.Ksuid.{Ksuids, parse_or_nil}
use fim.Wire.Header
use fim.Wire.Message
use fim.Wire.Message.{Message}
use fim.Wire.Pid
use fim.Wire.Relay.{RelayPacket, new_empty_relay_message}

pub record HandlerConfig : Type 0 where
  pub pool_login : ℕ
  pub pool_logout : ℕ
  pub pool_chat : ℕ
  pub pool_chat_ack : ℕ

-- `in_packets` holds what is in the channel `in`, and `sent` what the Dispatcher's To has been given.
pub record MessageHandler (K : Type 0) : Type 0 where
  pub id : K
  pub conf : HandlerConfig
  pub state : ℕ
  pub in_packets : List (RelayPacket K)
  pub sent : List (K × RelayPacket K)

-- NewMessageHandler; its configuration is never set.
unfoldable pub new_message_handler : {K : Type 0} → K → MessageHandler K
new_message_handler sid = record {
  id = sid;
  conf = record { pool_login = 0; pool_logout = 0; pool_chat = 0; pool_chat_ack = 0 };
  state = 0;
  in_packets = [];
  sent = [];
}

-- Send
pub send : {K : Type 0} → RelayPacket K → MessageHandler K → MessageHandler K
send pkg h = record h { in_packets = h.in_packets ++ (pkg ∷ []) }

-- Start, and whether it starts handleInMessage.
pub start : {K : Type 0} → MessageHandler K → MessageHandler K × Bool
start h = if h.state == 0 then (record h { state = 1 }, true) else (h, false)

-- The handlers of the settings.
pub data Protocol : Type 0 where
  login logout chat chat_push_ack : Protocol

-- The keys of the settings, and of the pools that are made from them.
unfoldable pub handler_of : ℕ → Option Protocol
handler_of pid =
    if pid == Pid.login
    then some login
    else if pid == Pid.logout
    then some logout
    else if pid == Pid.chat
    then some chat
    else if pid == Pid.chat_push_ack
    then some chat_push_ack
    else none

-- The size of a handler's pool.
unfoldable pub pool_size : HandlerConfig → Protocol → ℕ
pool_size conf login = conf.pool_login
pool_size conf logout = conf.pool_logout
pool_size conf chat = conf.pool_chat
pool_size conf chat_push_ack = conf.pool_chat_ack

-- A job, with the handler in whose pool it is put.
abbrev pub Job : Type 0 → Type 0
Job K = Protocol × RelayPacket K

-- grpool: NewPool with the numbers of workers and of jobs that wait, and a send to the pool's JobQueue,
-- which is `none` where it never goes through.
pub record Grpool (K P : Type 0) : Type 0 where
  pub new_pool : ℕ → ℕ → P
  pub put : Job K → P → Option P

-- The map handlePools.
pub record HandlePools (P : Type 0) : Type 0 where
  pub login_pool : P
  pub logout_pool : P
  pub chat_pool : P
  pub chat_push_ack_pool : P

-- `handlePools[pid]`
abbrev pub pool_of : {P : Type 0} → Protocol → HandlePools P → P
pool_of login ps = ps.login_pool
pool_of logout ps = ps.logout_pool
pool_of chat ps = ps.chat_pool
pool_of chat_push_ack ps = ps.chat_push_ack_pool

-- The pools when that of one protocol has become another.
abbrev pub set_pool : {P : Type 0} → Protocol → P → HandlePools P → HandlePools P
set_pool login q ps = record ps { login_pool = q }
set_pool logout q ps = record ps { logout_pool = q }
set_pool chat q ps = record ps { chat_pool = q }
set_pool chat_push_ack q ps = record ps { chat_push_ack_pool = q }

-- Where handleInMessage stands: the jobs that the pools have taken, in their order, the pools, and
-- whether the loop blocks for ever in a send to a pool.
pub record Dispatched (K P : Type 0) : Type 0 where
  pub jobs : List (Job K)
  pub pools : HandlePools P
  pub blocked : Bool

-- What poolFunc has logged of a handler: nothing, its error, or its panic.
pub data Report : Type 0 where
  handled : Report
  failed : Error → Report
  recovered : Report

-- The receivers and the gateway of forward are any values: a text, an identifier, or anything else.
pub data Target (K : Type 0) : Type 0 where
  text : Bytes → Target K
  ksuid : K → Target K
  anything : Target K

-- What poolFunc makes of the outcome of a handler; its deferred function recovers a panic.
abbrev report : {S : Type 0} → Outcome S (Unit {0}) → Report
report (done _ s) = handled
report (fail e s) = failed e
report panic = recovered

module _ {K P : Type 0} (g : Grpool K P) where
  -- The pool of a protocol, which is made when the loop starts.
  abbrev pub pool_for : HandlerConfig → Protocol → P
  pool_for conf p = g.new_pool (pool_size conf p) (pool_size conf p * 10)

  -- The pools that are made in front of the loop, before any job.
  abbrev pub start_pools : HandlerConfig → Dispatched K P
  start_pools conf = record {
    jobs = [];
    pools = record {
      login_pool = pool_for conf login;
      logout_pool = pool_for conf logout;
      chat_pool = pool_for conf chat;
      chat_push_ack_pool = pool_for conf chat_push_ack;
    };
    blocked = false;
  }

  -- The loop over the packets of the channel, up to the first send to a pool that blocks; a packet
  -- without a payload panics.
  unfoldable pub dispatch : List (RelayPacket K) → Dispatched K P → Option (Dispatched K P)
  dispatch [] d = some d
  dispatch (msg ∷ rest) d = elim msg.payload [
    | none ↦ none
    | some m ↦ elim (handler_of (Header.get_pid m.header)) [
      | none ↦ dispatch rest d
      | some p ↦ elim (g.put (p, msg) (pool_of p d.pools)) [
        | none ↦ some (record d { blocked = true })
        | some q ↦
            dispatch rest
              (record d { jobs = d.jobs ++ ((p, msg) ∷ []); pools = set_pool p q d.pools })
      ]
    ]
  ]

  -- handleInMessage on the packets that come out of the channel.
  unfoldable pub handle_in_message : HandlerConfig → List (RelayPacket K) → Option (Dispatched K P)
  handle_in_message conf msgs = dispatch msgs (start_pools conf)

module _ {K : Type 0} where
  -- poolFunc; the payload's header is read before the function is deferred that recovers a panic.
  unfoldable pub pool_func :
      {S : Type 0} → (RelayPacket K → Act S (Unit {0})) → RelayPacket K → S → Option Report
  pool_func handle msg s = elim msg.payload [ none ↦ none | some m ↦ some (report (handle msg s)) ]

  -- chatHandler, groupHandler, chatPushAckHandler, loginHandler and logoutHandler.
  pub chat_handler : {S : Type 0} → RelayPacket K → Act S (Unit {0})
  chat_handler msg = return tt

  pub group_handler : {S : Type 0} → RelayPacket K → Act S (Unit {0})
  group_handler msg = return tt

  pub chat_push_ack_handler : {S : Type 0} → RelayPacket K → Act S (Unit {0})
  chat_push_ack_handler msg = return tt

  pub login_handler : {S : Type 0} → RelayPacket K → Act S (Unit {0})
  login_handler msg = return tt

  pub logout_handler : {S : Type 0} → RelayPacket K → Act S (Unit {0})
  logout_handler msg = return tt

module _ {K : Type 0} ⦃ks : Ksuids K⦄ where
  -- What ksuid.Parse, whose error is dropped, or the value itself gives; anything else leaves the nil
  -- identifier of a new slice.
  abbrev pub target_id : Target K → K
  target_id (text s) = parse_or_nil s
  target_id (ksuid k) = k
  target_id anything = ks.nil

  abbrev pub target_ids : List (Target K) → List K
  target_ids [] = []
  target_ids (t ∷ ts) = target_id t ∷ target_ids ts

  -- forward; the log reads the header of a nil message, which panics.
  unfoldable pub forward :
      Target K → Option Message → List (Target K) → MessageHandler K → Option (MessageHandler K)
  forward gateway_id message receivers h = if length receivers == 0 then some h else elim message [
    | none ↦ none
    | some m ↦ some (record h {
      sent =
          h.sent
          ++ ((
            target_id gateway_id,
            record (new_empty_relay_message h.id) {
              receivers = target_ids receivers;
              payload = some m;
            },
          )
              ∷ []);
    })
  ]
