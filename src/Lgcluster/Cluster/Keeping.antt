-- ===== src/Lgcluster/Cluster/Keeping.antt =====
-- Whatever is added and removed, the slice of identifiers agrees with the map of servers.
use fim.Base.{
  ℕ, zero, suc, ◌≡◌, refl, ap, ◌∙◌, inl, inr, Option, none, some, List, [], ◌∷◌, Option-cases,
  length, All,
}
use mathlib.Core.Logic.{∥∥₁_elim}
use mathlib.Core.List.{Perm, Permᴰ}
use native.Mathlib.Nat.{ℕ_set}
use fim.Base.GoMap.{lookup, insert, delete, Distinct, insert-Distinct, delete-Distinct}
use fim.Lgcluster.Cluster.{
  Cluster, Range, IsRange, keys, new_cluster, rebuild_ids, add_server, del_server, connect_loop,
  connect_server, Change, add, del, change, run,
}

length-Permᴰ : {A : Type 0} {xs ys : List A} → Permᴰ xs ys → length xs ≡ length ys
length-Permᴰ Permᴰ.nil = refl
length-Permᴰ (Permᴰ.cons e p) = ap suc (length-Permᴰ p)
length-Permᴰ (Permᴰ.swap e f) = refl
length-Permᴰ (Permᴰ.trans p q) = length-Permᴰ p ∙ length-Permᴰ q

pub length-Perm : {A : Type 0} {xs ys : List A} → Perm xs ys → length xs ≡ length ys
length-Perm p = ∥∥₁_elim p (ℕ_set _ _) length-Permᴰ

module _ {K S : Type 0} (same : Discrete K) where
  -- No identifier stands twice in the map, and the slice holds its keys, in some order.
  pub record IsKept (c : Cluster K S) : Type 0 where
    pub distinct : Distinct same c.servers
    pub ids : Perm c.ids (keys c.servers)

  new_cluster-IsKept : (id : K) → IsKept (new_cluster id)
  unfolding new_cluster
  new_cluster-IsKept id = record { distinct = tt; ids = ∣ Permᴰ.nil ∣₁ }

  pub add_server-IsKept :
      (r : Range K) (id : K) (p : S) (c : Cluster K S)
      → IsRange r
      → IsKept c
      → IsKept (add_server same r id p c)
  unfolding add_server rebuild_ids
  add_server-IsKept r id p c range kept = record {
    distinct = insert-Distinct same id p c.servers kept.distinct;
    ids = range (keys (insert same id p c.servers));
  }

  pub del_server-IsKept :
      (r : Range K) (id : K) (c : Cluster K S)
      → IsRange r
      → IsKept c
      → IsKept ((del_server same r id c).1)
  unfolding del_server rebuild_ids
  del_server-IsKept r id c range kept = elim (Option-cases (lookup same id c.servers)) [
    | inl e ↦ rw (e, del_server) kept
    | inr (s, e) ↦
        rw (e, del_server)
          (record {
            distinct = delete-Distinct same id c.servers kept.distinct;
            ids = range (keys (delete same id c.servers));
          })
  ]

  connect_loop-IsKept :
      (r : Range K) (n : ℕ) (attempts : List (Option (K × S))) (c : Cluster K S)
      → IsRange r
      → IsKept c
      → IsKept (connect_loop same r n attempts c)
  unfolding connect_loop
  connect_loop-IsKept r zero attempts c range kept = kept
  connect_loop-IsKept r (suc n) [] c range kept = kept
  connect_loop-IsKept r (suc n) (none ∷ attempts) c range kept =
      connect_loop-IsKept r n attempts c range kept
  connect_loop-IsKept r (suc n) (some (id, p) ∷ attempts) c range kept =
      add_server-IsKept r id p c range kept

  -- Every range of a change visits the map's keys, each once.
  abbrev pub Ranges : Change K S → Type 0
  Ranges (add r id p) = IsRange r
  Ranges (del r id) = IsRange r

  change-IsKept :
      (m : Change K S) (c : Cluster K S) → Ranges m → IsKept c → IsKept (change same m c)
  unfolding change
  change-IsKept (add r id p) c range kept = add_server-IsKept r id p c range kept
  change-IsKept (del r id) c range kept = del_server-IsKept r id c range kept

  run-IsKept_from :
      (ms : List (Change K S)) (c : Cluster K S) → All Ranges ms → IsKept c → IsKept (run same ms c)
  unfolding run
  run-IsKept_from [] c ranges kept = kept
  run-IsKept_from (m ∷ ms) c ranges kept =
      run-IsKept_from ms (change same m c) ranges.1 (change-IsKept m c ranges.0 kept)

  -- After any sequence of added and deleted servers on a new cluster, in whatever order each range
  -- over the map has visited its keys, no identifier stands twice in the map, and the slice of
  -- identifiers holds exactly the map's keys; and connectServer, with whatever attempts, keeps that.
  pub run-IsKept :
      (id : K) (ms : List (Change K S)) (r : Range K) (attempts : List (Option (K × S)))
      → All Ranges ms
      → IsRange r
      → IsKept (run same ms (new_cluster id))
        × IsKept (connect_server same r attempts (run same ms (new_cluster id)))
  unfolding connect_server
  run-IsKept id ms r attempts ranges range =
      let kept = run-IsKept_from ms (new_cluster id) ranges (new_cluster-IsKept id) in
      (kept, connect_loop-IsKept r 5 attempts (run same ms (new_cluster id)) range kept)

  pub connect_server-IsKept :
      (r : Range K) (attempts : List (Option (K × S))) (c : Cluster K S)
      → IsRange r
      → IsKept c
      → IsKept (connect_server same r attempts c)
  unfolding connect_server
  connect_server-IsKept r attempts c range kept = connect_loop-IsKept r 5 attempts c range kept
