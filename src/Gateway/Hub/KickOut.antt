-- ===== src/Gateway/Hub/KickOut.antt =====
-- What a kick-out that has been relayed does with the map of clients and with their counter.
use fim.Base.{
  ℕ, ◌+◌, ◌≡◌, refl, sym, inl, inr, false, none, some, List, [], ◌∷◌, ◌++◌, arith, if◌then◌else◌,
  Option-cases,
}
use fim.Base.GoMap.{lookup, delete, delete-Distinct, length-delete}
use fim.Wire.Ksuid.{Ksuids, parse_or_nil}
use fim.Wire.Entity.{Proto, KickOut}
use fim.Wire.Entity
use fim.Wire.Message.{Message, entity, get_payload_entity}
use fim.Peer.Client.{WsClient, WsConn}
use fim.Peer.Client
use fim.Gateway.Hub.{Gateway, kick_out}
use fim.Gateway.Hub.Registry.{set_at, registered, registered-delete, set_at-false_of_none}
use fim.Gateway.Hub.Counting.{Counted, Keeps, delete-Keyed}

module _ {K C : Type 0} ⦃ks : Ksuids K⦄ ⦃ws : WsConn C⦄ where
  kick_known :
      (x : ℕ) (proto : Proto) (p : Message) (k : KickOut) (c : WsClient K C) (g : Gateway K C)
      (m : List (K × WsClient K C))
      → Counted x g m
      → get_payload_entity proto p ≡ entity (Entity.kick_out k)
      → lookup ks.same (parse_or_nil k.peer_id) m ≡ some c
      → Keeps (set_at (parse_or_nil k.peer_id) false (registered m)) (x + 1) (kick_out proto p g)
  unfolding kick_out
  kick_known x proto p k c g m v e known = record {
    after = record g {
      clients = some (delete ks.same (parse_or_nil k.peer_id) m);
      hung_up = g.hung_up ++ (Client.close c ∷ []);
    };
    returns = ground arith;
    clients_after = delete ks.same (parse_or_nil k.peer_id) m;
    counted = record {
      running = v.running;
      holds = refl;
      distinct = delete-Distinct ks.same (parse_or_nil k.peer_id) m v.distinct;
      keyed = delete-Keyed (parse_or_nil k.peer_id) m v.keyed;
      count = omega (arith, v.count, length-delete ks.same (parse_or_nil k.peer_id) c m known);
    };
    stands_for = λ i. registered-delete (parse_or_nil k.peer_id) i m v.distinct;
  }

  kick_unknown :
      (x : ℕ) (proto : Proto) (p : Message) (k : KickOut) (g : Gateway K C)
      (m : List (K × WsClient K C))
      → Counted x g m
      → get_payload_entity proto p ≡ entity (Entity.kick_out k)
      → lookup ks.same (parse_or_nil k.peer_id) m ≡ none
      → Keeps (set_at (parse_or_nil k.peer_id) false (registered m)) (x + 0) (kick_out proto p g)
  unfolding kick_out
  kick_unknown x proto p k g m v e missing = record {
    after = g;
    returns = ground arith;
    clients_after = m;
    counted = record {
      running = v.running;
      holds = v.holds;
      distinct = v.distinct;
      keyed = v.keyed;
      count = omega (arith, v.count);
    };
    stands_for = λ i. sym (set_at-false_of_none (parse_or_nil k.peer_id) i m missing);
  }

  pub kick_out-Keeps :
      (x : ℕ) (proto : Proto) (p : Message) (k : KickOut) (g : Gateway K C)
      (m : List (K × WsClient K C))
      → Counted x g m
      → get_payload_entity proto p ≡ entity (Entity.kick_out k)
      → Keeps
          (set_at (parse_or_nil k.peer_id) false (registered m))
          (x + (if registered m (parse_or_nil k.peer_id) then 1 else 0))
          (kick_out proto p g)
  kick_out-Keeps x proto p k g m v e =
      elim (Option-cases (lookup ks.same (parse_or_nil k.peer_id) m)) [
        | inl missing ↦ rw (missing, registered) (kick_unknown x proto p k g m v e missing)
        | inr (c, known) ↦ rw (known, registered) (kick_known x proto p k c g m v e known)
      ]
