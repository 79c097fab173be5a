-- ===== src/Lgcluster/Cluster/Single.antt =====
-- A cluster of one server.
use fim.Base.{ℕ, ◌≡◌, refl, if_pos, some, [], ◌∷◌}
use fim.Base.GoMap.{lookup}
use fim.Lgcluster.Cluster.{Cluster, get}

abbrev pub one_server : {K S : Type 0} → K → ℕ → K → S → Cluster K S
one_server gwid started id s = record {
  gwid = gwid;
  servers = (id, s) ∷ [];
  ids = id ∷ [];
  index = 0;
  started = started;
}

pub get-one_server :
    {K S : Type 0} (same : Discrete K) (gwid : K) (started : ℕ) (id : K) (s : S)
    → get same (one_server gwid started id s) ≡ some (some s, one_server gwid started id s)
unfolding get lookup
get-one_server same gwid started id s = rw (if_pos (same id id) refl)
