-- ===== src/Base/Acts.antt =====
-- The outcome of Go code that returns an error, over a state that it may change on the way: a
-- reader's bytes still to come, a writer, or an object.
use Prim.Native.Nat.{ℕ}
use mathlib.Core.List.{List}

-- The error values that the modelled code makes or passes on.
pub data Error : Type 0 where
  eof unexpected_eof : Error
  pid_no_found sid_length_wrong : Error
  token_invalid max_client_limit parameters_empty invalid_ping bad_version : Error
  hub_closed hub_started : Error
  peer_is_closed peer_is_opened client_is_closed client_is_started : Error
  not_handshake not_handshake_ack server_existed no_connection addr_is_nil : Error
  handshake_failed : Error
  external : Error

-- `done` is a result with a nil error, `fail` a non-nil error, and `panic` a run-time panic.
pub data Outcome (S A : Type 0) : Type 0 where
  done : A → S → Outcome S A
  fail : Error → S → Outcome S A
  panic : Outcome S A

abbrev pub Act : Type 0 → Type 0 → Type 0
Act S A = S → Outcome S A

abbrev pub and_then : {S A B : Type 0} → Outcome S A → (A → Act S B) → Outcome S B
and_then (done a s) f = f a s
and_then (fail e s) f = fail e s
and_then panic f = panic

infixl 5 ◌>>=◌ ◌>>◌
abbrev pub ◌>>=◌ : {S A B : Type 0} → Act S A → (A → Act S B) → Act S B
◌>>=◌ m f s = and_then (m s) f

abbrev pub ◌>>◌ : {S B : Type 0} → Act S (Unit {0}) → Act S B → Act S B
m >> k = m >>= λ _. k

abbrev pub return : {S A : Type 0} → A → Act S A
return a s = done a s

abbrev pub throw : {S A : Type 0} → Error → Act S A
throw e s = fail e s

-- A call whose error is thrown away: the value falls back to `d`.
abbrev pub or_default : {S A : Type 0} → A → Outcome S A → Outcome S A
or_default d (done a s) = done a s
or_default d (fail e s) = done d s
or_default d panic = panic

-- io.Writer: one call of Write, which takes the whole slice or fails.
pub record Writer (W : Type 0) : Type 0 where
  pub write : List ℕ → Act W (Unit {0})
