-- ===== src/Lgcluster/Cluster/Tests.antt =====
-- The theorems about the cluster of logic servers on a cluster with three servers.
use fim.Base.{
  ℕ, ◌≡◌, refl, Option, none, some, List, [], ◌∷◌, ◌++◌, map, arith, ℕ_discrete, length, All, done,
}
use mathlib.Core.List.{Perm}
use mathlib.Core.List.Perm
use mathlib.Core.List.Permᴰ
use mathlib.Core.List.{reverse}
use fim.Base.GoMap.{lookup}
use fim.Lgcluster.Cluster.{
  Cluster, Range, IsRange, Change, add, del, run, new_cluster, connect_server,
}
use fim.Wire.Buffer.{Bytes, buffer}
use fim.Wire.Ksuid.{parse_or_nil}
use fim.Wire.Samples.{small_ids, small_ids-KsuidLaws}
use fim.Peer.Handshake.{HandshakeReq, upgrade, code_handshake_ok}
use fim.Peer.Server.{Server, restart}
use fim.Lgcluster.Cluster.Connecting.{type_gate, ServerEntry, build_server}
use fim.Lgcluster.Cluster.Reconnecting.{build_server-restart}
use fim.Lgcluster.Cluster.Keeping.{IsKept, Ranges, run-IsKept}
use fim.Lgcluster.Cluster.RoundRobin.{gets, gets_round_robin}

-- One range visits the keys as they stand, another one backwards.
abbrev forwards : Range ℕ
forwards ks = ks

forwards-IsRange : IsRange forwards
forwards-IsRange ks = Perm.refl ks

abbrev backwards : Range ℕ
backwards ks = reverse ks

backwards-IsRange : IsRange backwards
backwards-IsRange ks = ∣ Permᴰ.reverse ks ∣₁

abbrev changes : List (Change ℕ ℕ)
changes =
    add forwards 4 40
    ∷ add backwards 5 50
    ∷ del forwards 4
    ∷ add backwards 6 60
    ∷ add backwards 7 70
    ∷ []

changes-Ranges : All (Ranges ℕ_discrete) changes
changes-Ranges = (
  forwards-IsRange,
  (backwards-IsRange, (forwards-IsRange, (backwards-IsRange, (backwards-IsRange, tt)))),
)

run-IsKept_example :
    IsKept ℕ_discrete (run ℕ_discrete changes (new_cluster 1))
    × IsKept ℕ_discrete (
        connect_server ℕ_discrete forwards
          (none ∷ some (9, 90) ∷ [])
          (run ℕ_discrete changes (new_cluster 1)))
run-IsKept_example =
    run-IsKept ℕ_discrete 1 changes forwards (none ∷ some (9, 90) ∷ []) changes-Ranges
      forwards-IsRange

abbrev three_servers : Cluster ℕ ℕ
three_servers = record {
  gwid = 1;
  servers = (5, 50) ∷ (6, 60) ∷ (7, 70) ∷ [];
  ids = 7 ∷ 6 ∷ 5 ∷ [];
  index = 8;
  started = 1;
}

three_servers-IsKept : IsKept ℕ_discrete three_servers
unfolding lookup ℕ_discrete
three_servers-IsKept = record {
  distinct = (refl, (refl, (refl, tt)));
  ids = backwards-IsRange (5 ∷ 6 ∷ 7 ∷ []);
}

gets_round_robin_example :
    (ss : List (Option ℕ)) × (i : ℕ) × (gets ℕ_discrete (length three_servers.servers) three_servers
      ≡ some (ss, record three_servers { index = i }))
    × Perm ss (map (λ e. some e.1) three_servers.servers)
gets_round_robin_example =
    gets_round_robin ℕ_discrete three_servers three_servers-IsKept (omega arith)

abbrev entry : ServerEntry
entry = record { id = b'5' ∷ []; ip = b'h' ∷ []; port = 80 }

abbrev accept_all : HandshakeReq ℕ → ℕ × Option Bytes
accept_all req = (code_handshake_ok, none)

build_server-restart_example :
    (request reply again reply_again : Bytes) × (p p' : Server ℕ Bytes) × (upgrade accept_all
        (record { incoming = request ++ []; out = [] })
      ≡ done (record { sid = 7; meta = type_gate }) (record { incoming = []; out = reply }))
    × (build_server 7 entry (some (record { incoming = reply ++ []; out = [] })) ≡ some p)
    × (p.conn ≡ some request)
    × (upgrade accept_all (record { incoming = again ++ []; out = [] })
        ≡ done
            (record { sid = parse_or_nil entry.id; meta = type_gate })
            (record { incoming = []; out = reply_again }))
    × (restart (some (record { incoming = reply_again ++ []; out = [] })) p ≡ done tt p')
    × (p'.conn ≡ some again)
build_server-restart_example =
    build_server-restart small_ids-KsuidLaws accept_all 7 entry [] [] (omega arith) (λ h. refl)
