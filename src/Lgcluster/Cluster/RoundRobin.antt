-- ===== src/Lgcluster/Cluster/RoundRobin.antt =====
-- Get hands out the servers in turn.
use fim.Base.{
  ℕ, zero, suc, ◌+◌, ◌-◌, ◌%◌, ◌≤◌, ◌<◌, ◌≡◌, refl, sym, ap, ap₂, subst, ◌∙◌, ◌≢◌, if_pos, if_neg,
  Option, none, some, List, [], ◌∷◌, ◌++◌, map, arith, length, get_elem?, take, drop, length-drop,
  take-all, take-append-drop,
}
use mathlib.Core.Option.{none-ne-some}
use mathlib.Core.List.{Perm, map-append}
use mathlib.Core.List.Permᴰ
use mathlib.Core.List.Perm
use native.Mathlib.Nat.{zero-add, suc-add, mod-eq_of_lt, mod-lt, mod_self}
use fim.Base.GoMap.{lookup, Distinct}
use fim.Lgcluster.Cluster.{Cluster, keys, get}
use fim.Lgcluster.Cluster.Keeping.{IsKept, length-Perm}

module _ {A : Type 0} where
  get_elem?-drop :
      (k : ℕ) (xs : List A)
      → k < length xs
      → (x : A) × (get_elem? xs k ≡ some x) × (drop k xs ≡ x ∷ drop (suc k) xs)
  get_elem?-drop k [] h = absurd (omega arith)
  get_elem?-drop zero (x ∷ xs) h = (x, refl, refl)
  get_elem?-drop (suc k) (x ∷ xs) h = get_elem?-drop k xs (omega arith)

module _ {K S : Type 0} (same : Discrete K) where
  abbrev cons_result :
      Option S → Option (List (Option S) × Cluster K S) → Option (List (Option S) × Cluster K S)
  cons_result s none = none
  cons_result s (some (ss, c)) = some (s ∷ ss, c)

  abbrev behind :
      Option (Option S × Cluster K S)
      → (Cluster K S → Option (List (Option S) × Cluster K S))
      → Option (List (Option S) × Cluster K S)
  behind none f = none
  behind (some (s, c)) f = cons_result s (f c)

  -- `n` calls of Get, one after the other, with nothing between them.
  unfoldable pub gets : ℕ → Cluster K S → Option (List (Option S) × Cluster K S)
  gets zero c = some ([], c)
  gets (suc n) c = behind (get same c) (gets n)

  abbrev append_result :
      List (Option S)
      → Option (List (Option S) × Cluster K S)
      → Option (List (Option S) × Cluster K S)
  append_result ss none = none
  append_result ss (some (ts, c)) = some (ss ++ ts, c)

  -- Further calls of Get behind some calls.
  abbrev go_on : ℕ → Option (List (Option S) × Cluster K S) → Option (List (Option S) × Cluster K S)
  go_on j none = none
  go_on j (some (ss, c)) = append_result ss (gets j c)

  cons-append_result :
      (s : Option S) (ss : List (Option S)) (o : Option (List (Option S) × Cluster K S))
      → cons_result s (append_result ss o) ≡ append_result (s ∷ ss) o
  cons-append_result s ss none = refl
  cons-append_result s ss (some r) = refl

  cons-go_on :
      (j : ℕ) (s : Option S) (o : Option (List (Option S) × Cluster K S))
      → cons_result s (go_on j o) ≡ go_on j (cons_result s o)
  cons-go_on j s none = refl
  cons-go_on j s (some (ss, c)) = cons-append_result s ss (gets j c)

  append_result-nil : (o : Option (List (Option S) × Cluster K S)) → o ≡ append_result [] o
  append_result-nil none = refl
  append_result-nil (some r) = refl

  behind-go_on :
      (j : ℕ) (o : Option (Option S × Cluster K S))
      (f g : Cluster K S → Option (List (Option S) × Cluster K S))
      → ((c : Cluster K S) → f c ≡ go_on j (g c))
      → behind o f ≡ go_on j (behind o g)
  behind-go_on j none f g h = refl
  behind-go_on j (some (s, c)) f g h = ap (cons_result s) (h c) ∙ cons-go_on j s (g c)

  gets-add : (n j : ℕ) (c : Cluster K S) → gets (n + j) c ≡ go_on j (gets n c)
  unfolding gets
  gets-add zero j c = rw zero-add (append_result-nil (gets j c))
  gets-add (suc n) j c =
      rw suc-add (behind-go_on j (get same c) (gets (n + j)) (gets n) (gets-add n j))

  abbrev servers_of : Cluster K S → List K → List (Option S)
  servers_of c ks = map (λ k. lookup same k c.servers) ks

  get_next :
      (k : ℕ) (c : Cluster K S)
      → length c.ids ≡ length c.servers
      → (c.index + 1) % length c.servers ≡ k
      → k < length c.servers
      → (x : K) × (drop k c.ids ≡ x ∷ drop (suc k) c.ids)
        × (get same c ≡ some (lookup same x c.servers, record c { index = k }))
  unfolding get
  get_next k c len at lt =
      let (x, there, rest) = get_elem?-drop k c.ids (omega arith) in
      (x, rest, ground (arith, at, there))

  -- The calls that stay within the slice, from its element `k` on.
  gets_run :
      (j k : ℕ) (c : Cluster K S)
      → length c.ids ≡ length c.servers
      → (c.index + 1) % length c.servers ≡ k
      → k + suc j ≤ length c.servers
      → gets (suc j) c
        ≡ some (servers_of c (take (suc j) (drop k c.ids)), record c { index = k + j })
  unfolding gets
  gets_run zero k c len at le =
      let (x, rest, next) = get_next k c len at (omega arith) in
      rw (next, rest)
        (ap (λ i. some (lookup same x c.servers ∷ [], record c { index = i })) (omega arith))
  gets_run (suc j) k c len at le =
      let (x, rest, next) = get_next k c len at (omega arith) in
      rw (next, rest)
        (rw
          (gets_run j (suc k) (record c { index = k }) len
            (mod-eq_of_lt {n = k + 1} {m = length c.servers} (omega (arith, le)) ∙ omega arith)
            (omega (arith, le)))
          (ap
            (λ i. some (
              lookup same x c.servers ∷ servers_of c (take (suc j) (drop (suc k) c.ids)),
              record c { index = i },
            ))
            (omega arith)))

  -- The calls from the start of the slice.
  gets_start :
      (j : ℕ) (c : Cluster K S)
      → length c.ids ≡ length c.servers
      → (c.index + 1) % length c.servers ≡ 0
      → j ≤ length c.servers
      → (i : ℕ) × (gets j c ≡ some (servers_of c (take j c.ids), record c { index = i }))
  gets_start zero c len at le = (c.index, unfold gets in refl)
  gets_start (suc j) c len at le = (0 + j, gets_run j 0 c len at (omega (arith, le)))

  not_found :
      (i j : K) (w : S) (ms : List (K × S))
      → lookup same j ((i, w) ∷ ms) ≡ none
      → (i ≢ j) × (lookup same j ms ≡ none)
  unfolding lookup
  not_found i j w ms h = elim (same i j) [
    | yes e ↦ absurd (none-ne-some w (sym h ∙ if_pos (same i j) e _ _))
    | no n ↦ (n, sym (if_neg (same i j) n _ _) ∙ h)
  ]

  -- Behind a lookup of other keys.
  lookup-keys :
      (j : K) (v : S) (m ms : List (K × S))
      → lookup same j ms ≡ none
      → map (λ k. lookup same k ((j, v) ∷ m)) (keys ms) ≡ map (λ k. lookup same k m) (keys ms)
  unfolding lookup
  lookup-keys j v m [] h = refl
  lookup-keys j v m ((i, w) ∷ ms) h =
      let (other, rest) = not_found i j w ms h in
      ap₂ ◌∷◌ (if_neg (same j i) (λ e. other (sym e)) _ _) (lookup-keys j v m ms rest)

  -- The map's own keys, looked up, are its values.
  lookup-own_keys :
      (m : List (K × S))
      → Distinct same m
      → map (λ k. lookup same k m) (keys m) ≡ map (λ e. some e.1) m
  unfolding lookup
  lookup-own_keys [] d = refl
  lookup-own_keys ((j, v) ∷ m) d =
      ap₂ ◌∷◌ (if_pos (same j j) refl _ _) (lookup-keys j v m m d.0 ∙ lookup-own_keys m d.1)

  -- All servers, in turn.
  served :
      (k : ℕ) (c : Cluster K S)
      → IsKept same c
      → Perm
          (servers_of c (drop k c.ids) ++ servers_of c (take k c.ids))
          (map (λ e. some e.1) c.servers)
  served k c kept = subst (Perm turned) (lookup-own_keys c.servers kept.distinct) reordered
    where
      turned : List (Option S)
      turned = servers_of c (drop k c.ids) ++ servers_of c (take k c.ids)

      swapped : turned ≡ servers_of c (drop k c.ids ++ take k c.ids)
      swapped = sym (map-append (λ k. lookup same k c.servers) (drop k c.ids) (take k c.ids))

      rotated : Perm (drop k c.ids ++ take k c.ids) (keys c.servers)
      rotated =
          Perm.trans ∣ Permᴰ.append_comm (drop k c.ids) (take k c.ids) ∣₁
            (subst (λ ks. Perm ks (keys c.servers)) (sym (take-append-drop k c.ids)) kept.ids)

      reordered : Perm turned (servers_of c (keys c.servers))
      reordered =
          subst (λ ss. Perm ss (servers_of c (keys c.servers))) (sym swapped)
            (Perm.map (λ k. lookup same k c.servers) rotated)

  -- The slice's length is the map's.
  length-ids : (c : Cluster K S) → IsKept same c → length c.ids ≡ length c.servers
  length-ids c kept = length-Perm kept.ids ∙ length-keys c.servers
    where
      length-keys : (m : List (K × S)) → length (keys m) ≡ length m
      length-keys [] = refl
      length-keys ((k, s) ∷ m) = ap suc (length-keys m)

  -- While nothing is added or removed, as many calls of Get as there are servers, from whatever
  -- position, hand out every server of the map exactly once, and none of them is nil.
  pub gets_round_robin :
      (c : Cluster K S)
      → IsKept same c
      → 0 < length c.servers
      → (ss : List (Option S)) × (i : ℕ) × (gets (length c.servers) c
          ≡ some (ss, record c { index = i }))
        × Perm ss (map (λ e. some e.1) c.servers)
  gets_round_robin c kept some_left = (
    servers_of c (drop k c.ids) ++ servers_of c (take k c.ids),
    second.0,
    ap (λ n. gets n c) (omega arith)
        ∙ gets-add (suc a) k c
        ∙ ap (go_on k) first
        ∙ ap (append_result (servers_of c (drop k c.ids))) second.1,
    served k c kept,
  )
    where
      k : ℕ
      k = (c.index + 1) % length c.servers

      below : k < length c.servers
      below = mod-lt (c.index + 1) some_left

      a : ℕ
      a = length c.servers - suc k

      to_end : take (suc a) (drop k c.ids) ≡ drop k c.ids
      to_end =
          take-all (suc a) (drop k c.ids)
            (omega (arith, below, length-ids c kept, length-drop {0} k c.ids))

      first : gets (suc a) c ≡ some (servers_of c (drop k c.ids), record c { index = k + a })
      first =
          gets_run a k c (length-ids c kept) refl (omega (arith, below))
          ∙ ap (λ ks. some (servers_of c ks, record c { index = k + a })) to_end

      wrapped : (k + a + 1) % length c.servers ≡ 0
      wrapped =
          ap (λ n. n % length c.servers) {y = length c.servers} (omega (arith, below))
          ∙ mod_self (length c.servers)

      second :
          (i : ℕ) × (gets k (record c { index = k + a })
            ≡ some (servers_of c (take k c.ids), record c { index = i }))
      second =
          gets_start k (record c { index = k + a }) (length-ids c kept) wrapped
            (omega (arith, below))
