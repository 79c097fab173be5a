-- ===== src/Lgcluster/Cluster.antt =====
-- lgcluster/cluster.go: the logic servers that a gateway is connected to, and the choice of one of
-- them for a message.
pub mod Keeping
pub mod RoundRobin
pub mod Connecting
pub mod Reconnecting
pub mod Single
mod Tests
use fim.Base.{
  ℕ, zero, suc, ◌+◌, ◌-◌, ◌/◌, ◌%◌, ap, not, Option, none, some, List, [], ◌∷◌, map, ◌==◌,
  if◌then◌else◌, length, get_elem?, panic,
}
use mathlib.Core.List.{Perm}
use fim.Base.GoMap.{lookup, insert, delete}

-- `servers` is the map, `ids` the slice that rebuildIds makes of it.
pub record Cluster (K S : Type 0) : Type 0 where
  pub gwid : K
  pub servers : List (K × S)
  pub ids : List K
  pub index : ℕ
  pub started : ℕ

-- The order in which one `range` over a map visits its keys: Go leaves it open, and each loop may
-- have another one.
abbrev pub Range : Type 0 → Type 0
Range K = List K → List K

abbrev pub IsRange : {K : Type 0} → Range K → Type 0
IsRange {K} r = (ks : List K) → Perm (r ks) ks

abbrev pub keys : {K S : Type 0} → List (K × S) → List K
keys [] = []
keys ((k, s) ∷ m) = k ∷ keys m

module _ {K S : Type 0} where
  -- newCluster
  unfoldable pub new_cluster : K → Cluster K S
  new_cluster id = record { gwid = id; servers = []; ids = []; index = 0; started = 0 }

  rebuild_ids : Range K → Cluster K S → Cluster K S
  rebuild_ids r c = record c { ids = r (keys c.servers) }

  -- `c.servers[k]`, which is nil where the key is missing.
  abbrev server_at : Discrete K → Option K → Cluster K S → Option (Option S × Cluster K S)
  server_at same none c = none
  server_at same (some k) c = some (lookup same k c.servers, c)

  -- Get: the server or nil; `none` is the panic of an index out of range.
  unfoldable pub get : Discrete K → Cluster K S → Option (Option S × Cluster K S)
  get same c =
      if length c.servers == 0
      then some (none, c)
      else server_at same (get_elem? c.ids ((c.index + 1) % length c.servers))
          (record c { index = (c.index + 1) % length c.servers })

  -- The server's own identifier is the key.
  pub add_server : Discrete K → Range K → K → S → Cluster K S → Cluster K S
  unfolding rebuild_ids
  add_server same r id p c = rebuild_ids r (record c { servers = insert same id p c.servers })

  pub del_server : Discrete K → Range K → K → Cluster K S → Option S × Cluster K S
  unfolding rebuild_ids
  del_server same r id c = elim (lookup same id c.servers) [
    | none ↦ (none, c)
    | some server ↦ (some server, rebuild_ids r (record c { servers = delete same id c.servers }))
  ]

  -- connectServer: attempts until one gives a server, at most five of them, the first one first.
  connect_loop : Discrete K → Range K → ℕ → List (Option (K × S)) → Cluster K S → Cluster K S
  connect_loop same r zero attempts c = c
  connect_loop same r (suc n) [] c = c
  connect_loop same r (suc n) (none ∷ attempts) c = connect_loop same r n attempts c
  connect_loop same r (suc n) (some (id, p) ∷ attempts) c = add_server same r id p c

  pub connect_server : Discrete K → Range K → List (Option (K × S)) → Cluster K S → Cluster K S
  unfolding connect_loop
  connect_server same r attempts c = connect_loop same r 5 attempts c

-- One locked change: a server that connectServer or reconnect adds, or one that is deleted.
pub data Change (K S : Type 0) : Type 0 where
  add : Range K → K → S → Change K S
  del : Range K → K → Change K S

pub change : {K S : Type 0} → Discrete K → Change K S → Cluster K S → Cluster K S
change same (add r id p) c = add_server same r id p c
change same (del r id) c = (del_server same r id c).1

-- The changes of a list, the first one first.
pub run : {K S : Type 0} → Discrete K → List (Change K S) → Cluster K S → Cluster K S
unfolding change
run same [] c = c
run same (m ∷ ms) c = run same ms (change same m c)
