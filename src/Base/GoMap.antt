-- ===== src/Base/GoMap.antt =====
-- A Go map as a list of its entries, with keys that are compared by a decision.
use Prim.Native.Nat.{◌+◌}
use mathlib.Core.Path.{◌≡◌, refl, sym}
use mathlib.Core.Logic.{◌≢◌, ite, if_pos, if_neg}
use mathlib.Core.List.{List, [], ◌∷◌}
use mathlib.Core.Option.{Option, none, some}
use native.Mathlib.Omega.{arith}
use fim.Base.Lists.{length}

module _ {K V : Type 0} (same : Discrete K) where
  unfoldable pub lookup : K → List (K × V) → Option V
  lookup k [] = none
  lookup k ((j, v) ∷ m) = ite (same j k) (some v) (lookup k m)

  -- `m[k] = v`
  unfoldable pub insert : K → V → List (K × V) → List (K × V)
  insert k v [] = (k, v) ∷ []
  insert k v ((j, w) ∷ m) = ite (same j k) ((k, v) ∷ m) ((j, w) ∷ insert k v m)

  -- `delete(m, k)`
  unfoldable pub delete : K → List (K × V) → List (K × V)
  delete k [] = []
  delete k ((j, w) ∷ m) = ite (same j k) m ((j, w) ∷ delete k m)

  -- No key stands twice.
  abbrev pub Distinct : List (K × V) → Type 0
  Distinct [] = Unit {0}
  Distinct ((j, w) ∷ m) = (lookup j m ≡ none) × Distinct m

  pub lookup-insert_self : (k : K) (v : V) (m : List (K × V)) → lookup k (insert k v m) ≡ some v
  unfolding lookup insert
  lookup-insert_self k v [] = rw (if_pos _ refl)
  lookup-insert_self k v ((j, w) ∷ m) = elim (same j k) [
    | yes e ↦ rw (if_pos _ e) (rw (if_pos _ refl))
    | no n ↦ rw (if_neg _ n) (rw (if_neg _ n) (lookup-insert_self k v m))
  ]

  pub insert-one : (k : K) (v w : V) → insert k v ((k, w) ∷ []) ≡ (k, v) ∷ []
  unfolding insert
  insert-one k v w = rw (if_pos _ refl)

  pub lookup-insert_ne :
      (k i : K) (v : V) (m : List (K × V)) → k ≢ i → lookup i (insert k v m) ≡ lookup i m
  unfolding lookup insert
  lookup-insert_ne k i v [] h = rw (if_neg _ h)
  lookup-insert_ne k i v ((j, w) ∷ m) h = ground (arith, lookup-insert_ne k i v m h)

  pub lookup-delete_ne : (k i : K) (m : List (K × V)) → k ≢ i → lookup i (delete k m) ≡ lookup i m
  unfolding lookup delete
  lookup-delete_ne k i [] h = refl
  lookup-delete_ne k i ((j, w) ∷ m) h = ground (arith, lookup-delete_ne k i m h)

  pub lookup-delete_self : (k : K) (m : List (K × V)) → Distinct m → lookup k (delete k m) ≡ none
  unfolding lookup delete
  lookup-delete_self k [] d = refl
  lookup-delete_self k ((j, w) ∷ m) d = ground (arith, lookup-delete_self k m d.1)

  pub insert-Distinct : (k : K) (v : V) (m : List (K × V)) → Distinct m → Distinct (insert k v m)
  unfolding insert
  insert-Distinct k v [] d = (unfold lookup in refl, tt)
  insert-Distinct k v ((j, w) ∷ m) d = elim (same j k) [
    | yes e ↦ rw (if_pos _ e) (rw (← e) d)
    | no n ↦
        rw (if_neg _ n)
          (rw (lookup-insert_ne k j v m (λ e. n (sym e))) d.0, insert-Distinct k v m d.1)
  ]

  pub delete-Distinct : (k : K) (m : List (K × V)) → Distinct m → Distinct (delete k m)
  unfolding delete
  delete-Distinct k [] d = tt
  delete-Distinct k ((j, w) ∷ m) d = elim (same j k) [
    | yes e ↦ rw (if_pos _ e) d.1
    | no n ↦
        rw (if_neg _ n) (rw (lookup-delete_ne k j m (λ e. n (sym e))) d.0, delete-Distinct k m d.1)
  ]

  pub length-insert_new :
      (k : K) (v : V) (m : List (K × V)) → lookup k m ≡ none → length (insert k v m) ≡ length m + 1
  unfolding lookup insert
  length-insert_new k v [] h = omega arith
  length-insert_new k v ((j, w) ∷ m) h = ground (arith, length-insert_new k v m)

  pub length-insert_old :
      (k : K) (v w : V) (m : List (K × V)) → lookup k m ≡ some w → length (insert k v m) ≡ length m
  unfolding lookup insert
  length-insert_old k v x [] h = cc
  length-insert_old k v x ((j, w) ∷ m) h = ground (arith, length-insert_old k v x m)

  pub length-delete :
      (k : K) (w : V) (m : List (K × V)) → lookup k m ≡ some w → length (delete k m) + 1 ≡ length m
  unfolding lookup delete
  length-delete k x [] h = cc
  length-delete k x ((j, w) ∷ m) h = ground (arith, length-delete k x m)
