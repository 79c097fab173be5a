-- ===== src/Peer/Client/Lifecycle.antt =====
-- peer/ws_client.go: the states that a client goes through, with its calls and its read loops as
-- goroutines that take their atomic steps in any order.
use fim.Base.{
  ℕ, ◌+◌, ◌-◌, ◌≤◌, ◌<◌, ◌≡◌, refl, subst, Bool, true, false, Option, none, some, List, [], ◌∷◌,
  arith, ◌==◌, if◌then◌else◌,
}
use fim.Peer.Client.{client_closed, client_started, client_closing}

-- `has_conn` is false once `clean` has set the connection to nil. Of the goroutines it counts those in
-- the read loop, those behind the compare-and-swap of its deferred function (`leaving`), behind the
-- send to OnDisconnect (`signalled`) and behind `clean` (`cleaned`); the calls of Close behind theirs
-- (`closing`); and the calls of Push behind the test of the state (`pushing`). `starts`, `closes` and
-- `signals` count what has been done: a Start and a Close that changed the state, and a send to
-- OnDisconnect. `crashed` is a use of a nil connection.
pub record Life : Type 0 where
  pub state : ℕ
  pub has_conn : Bool
  pub reading : ℕ
  pub leaving : ℕ
  pub signalled : ℕ
  pub cleaned : ℕ
  pub closing : ℕ
  pub pushing : ℕ
  pub starts : ℕ
  pub closes : ℕ
  pub signals : ℕ
  pub crashed : Bool

abbrev pub new_life : Life
new_life = record {
  state = client_closed;
  has_conn = true;
  reading = 0;
  leaving = 0;
  signalled = 0;
  cleaned = 0;
  closing = 0;
  pushing = 0;
  starts = 0;
  closes = 0;
  signals = 0;
  crashed = false;
}

-- The steps: Start; a use of the connection in the read loop; the deferred function's
-- compare-and-swap, its send, its clean and its end; Close up to its write, and the rest of it; and
-- Push up to its write, and the write.
pub data Move : Type 0 where
  start reads leaves signals cleans ends close_begins close_ends push_begins push_ends : Move

-- A use of the connection.
abbrev uses_conn : Life → Life → Life
uses_conn s after = if s.has_conn then after else record s { crashed = true }

-- atomic.CompareAndSwapInt32 from closing to closed.
abbrev closed_from_closing : ℕ → ℕ
closed_from_closing n = if n == client_closing then client_closed else n

-- The compare-and-swap of the deferred function.
abbrev leave : Life → Option Life
leave s =
    if s.reading == 0
    then none
    else if s.state == client_started
    then some
        (record s { state = client_closing; reading = s.reading - 1; leaving = s.leaving + 1 })
    else some (record s { reading = s.reading - 1 })

-- Its Close of the connection and its send to OnDisconnect.
abbrev signal : Life → Option Life
signal s =
    if s.leaving == 0
    then none
    else some (
        uses_conn s (record s {
          leaving = s.leaving - 1;
          signalled = s.signalled + 1;
          signals = s.signals + 1;
        }))

abbrev clean : Life → Option Life
clean s =
    if s.signalled == 0
    then none
    else some (record s { has_conn = false; signalled = s.signalled - 1; cleaned = s.cleaned + 1 })

abbrev end_leave : Life → Option Life
end_leave s =
    if s.cleaned == 0
    then none
    else some (record s { state = closed_from_closing s.state; cleaned = s.cleaned - 1 })

-- Close up to its write, and from there on.
abbrev begin_close : Life → Option Life
begin_close s =
    if s.state == client_started
    then some (record s { state = client_closing; closing = s.closing + 1; closes = s.closes + 1 })
    else some s

abbrev end_close : Life → Option Life
end_close s =
    if s.closing == 0
    then none
    else some
        (uses_conn s (record s { state = closed_from_closing s.state; closing = s.closing - 1 }))

-- The test of Push.
abbrev begin_push : Life → Option Life
begin_push s =
    if s.state == client_started then some (record s { pushing = s.pushing + 1 }) else some s

-- One step; `none` where no goroutine stands at it.
unfoldable pub step : Move → Life → Option Life
step start s =
    if s.state == client_closed
    then some (record s { state = client_started; reading = s.reading + 1; starts = s.starts + 1 })
    else some s
step reads s = if s.reading == 0 then none else some (uses_conn s s)
step leaves s = leave s
step signals s = signal s
step cleans s = clean s
step ends s = end_leave s
step close_begins s = begin_close s
step close_ends s = end_close s
step push_begins s = begin_push s
step push_ends s =
    if s.pushing == 0 then none else some (uses_conn s (record s { pushing = s.pushing - 1 }))

-- The states that a new client comes to.
pub data Reach : Life → Type 0 where
  new : Reach new_life
  next : (m : Move) (s s' : Life) → Reach s → step m s ≡ some s' → Reach s'

-- A state that is closing has one goroutine at work on it, and any other state none; and every Start
-- is under way still, or has been ended by one goroutine that sends to OnDisconnect or by one Close.
abbrev pub Balanced : Life → Type 0
Balanced s =
    (s.leaving + s.signalled + s.cleaned + s.closing ≡ (if s.state == client_closing then 1 else 0))
    × (s.signals + s.leaving + s.closes + (if s.state == client_started then 1 else 0) ≡ s.starts)

abbrev AfterStep : Option Life → Type 0
AfterStep none = Unit {0}
AfterStep (some s) = Balanced s

step-Balanced : (m : Move) (s : Life) → Balanced s → AfterStep (step m s)
unfolding step
step-Balanced start s b = ground arith
step-Balanced reads s b = ground arith
step-Balanced leaves s b = ground arith
step-Balanced signals s b = ground arith
step-Balanced cleans s b = ground arith
step-Balanced ends s b = ground arith
step-Balanced close_begins s b = ground arith
step-Balanced close_ends s b = ground arith
step-Balanced push_begins s b = ground arith
step-Balanced push_ends s b = ground arith

Reach-Balanced : (s : Life) → Reach s → Balanced s
Reach-Balanced _ new = (refl, refl)
Reach-Balanced _ (next m s0 s reach e) =
    subst AfterStep e (step-Balanced m s0 (Reach-Balanced s0 reach))

-- In every state that a client comes to, however the steps of its goroutines are ordered: as many
-- Starts as have succeeded have been ended, each by one send to OnDisconnect or by one Close and never
-- by both, but for one while the client is started and one whose goroutine is about to send; and while
-- the client is closed none is left.
pub Reach-ended_once :
    (s : Life)
    → Reach s
    → (s.signals + s.closes ≤ s.starts)
      × (s.starts ≤ s.signals + s.closes + 1)
      × (s.state ≡ client_closed → s.signals + s.closes ≡ s.starts)
Reach-ended_once s reach =
    let (one_at_work, ended_once) = Reach-Balanced s reach in
    (ground arith, ground arith, λ at_rest. ground arith)

pub run : List Move → Life → Option Life
unfolding step
run [] s = some s
run (m ∷ ms) s = elim (step m s) [ none ↦ none | some s' ↦ run ms s' ]

abbrev pub crashes : Option Life → Bool
crashes none = false
crashes (some s) = s.crashed

-- A Push that has passed its test of the state, and then the end of the read loop up to `clean`, on any
-- started client whose connection is there: all of these steps can be taken, and the write of the Push
-- uses a nil connection.
pub push_races_clean :
    (s : Life)
    → s.state ≡ client_started
    → s.has_conn ≡ true
    → 0 < s.reading
    → crashes (run (push_begins ∷ leaves ∷ signals ∷ cleans ∷ push_ends ∷ []) s) ≡ true
unfolding run step
push_races_clean s is_started has in_loop = rw (is_started, has) (ground arith)
