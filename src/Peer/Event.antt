-- ===== src/Peer/Event.antt =====
-- peer/event.go: Event, which happens once. The channel that Done returns is closed or not; the
-- Once runs its function for the first caller only.
use fim.Base.{
  ℕ, zero, suc, ◌≡◌, refl, Bool, true, false, Option, none, some, List, [], ◌∷◌, ◌++◌, ◌==◌,
  if◌then◌else◌, replicate,
}

pub record Event : Type 0 where
  pub fired : ℕ
  pub closed : Bool
  pub once : Bool

pub new_event : Event
new_event = record { fired = 0; closed = false; once = false }

-- `close` of a channel that is closed already panics.
abbrev close : Event → Option Event
close e = if e.closed then none else some (record e { closed = true })

-- The function under the Once.
abbrev fire_once : Event → Option (Event × Bool)
fire_once e = elim (close (record e { fired = 1; once = true })) [
  | none ↦ none
  | some e' ↦ some (e', true)
]

-- `none` is a panic.
pub fire : Event → Option (Event × Bool)
fire e = if e.once then some (e, false) else fire_once e

pub has_fired : Event → Bool
has_fired e = e.fired == 1

-- Whether a receive from Done returns.
pub is_done : Event → Bool
is_done e = e.closed

-- `n` calls of Fire, one after the other, with their results, the last one first.
abbrev pub fire_all : ℕ → Option (Event × List Bool)
fire_all zero = some (new_event, [])
fire_all (suc n) = elim (fire_all n) [
  | none ↦ none
  | some (e, rs) ↦ elim (fire e) [ none ↦ none | some (e', r) ↦ some (e', r ∷ rs) ]
]

abbrev fired_event : Event
fired_event = record { fired = 1; closed = true; once = true }

fire_all_eq : (n : ℕ) → fire_all (suc n) ≡ some (fired_event, replicate n false ++ (true ∷ []))
unfolding fire new_event
fire_all_eq zero = refl
fire_all_eq (suc n) = rw (fire_all_eq n)

-- However often Fire is called on a new event, it does not panic; the first call and no other
-- returns true; and with the first call HasFired becomes true and Done's channel is closed.
pub fire_once_only :
    (n : ℕ)
    → (has_fired new_event ≡ false)
      × (is_done new_event ≡ false)
      × ((e : Event) × (fire_all (suc n) ≡ some (e, replicate n false ++ (true ∷ [])))
          × (has_fired e ≡ true)
          × (is_done e ≡ true))
unfolding has_fired is_done new_event
fire_once_only n = (refl, refl, (fired_event, fire_all_eq n, refl, refl))
