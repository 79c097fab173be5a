-- ===== src/Gateway/Hub/Counting.antt =====
-- The counter of clients against the map of clients.
use fim.Base.{
  ℕ, ◌+◌, ◌-◌, ◌%◌, ◌^◌, ◌≡◌, refl, sym, inl, inr, true, false, Option, none, some, List, [], ◌∷◌,
  ◌++◌, arith, if◌then◌else◌, Option-cases, length,
}
use fim.Base.GoMap.{
  lookup, insert, delete, Distinct, insert-Distinct, delete-Distinct, length-insert_new,
  length-insert_old, length-delete,
}
use fim.Wire.Ksuid.{Ksuids}
use fim.Wire.Relay.{new_empty_relay_message}
use fim.Peer.Seq
use fim.Peer.Client.{WsClient, WsConn}
use fim.Gateway.Hub.{Gateway, handle_client_connect, handle_client_disconnect}
use fim.Gateway.Hub.Registry.{
  Registry, set_at, registered, registered-insert, registered-delete, set_at-false_of_none,
}

module _ {K C : Type 0} ⦃ks : Ksuids K⦄ ⦃ws : WsConn C⦄ where
  -- Every client stands under its own identifier.
  abbrev pub Keyed : List (K × WsClient K C) → Type 0
  Keyed [] = Unit {0}
  Keyed ((k, c) ∷ m) = (c.id ≡ k) × Keyed m

  pub lookup-Keyed :
      (k : K) (c : WsClient K C) (m : List (K × WsClient K C))
      → Keyed m
      → lookup ks.same k m ≡ some c
      → c.id ≡ k
  unfolding lookup
  lookup-Keyed k c [] d e = cc
  lookup-Keyed k c ((j, x) ∷ m) d e = ground (arith, lookup-Keyed k c m d.1)

  pub insert-Keyed :
      (c : WsClient K C) (m : List (K × WsClient K C)) → Keyed m → Keyed (insert ks.same c.id c m)
  unfolding insert
  insert-Keyed c [] d = (refl, tt)
  insert-Keyed c ((j, x) ∷ m) d = ground (arith, insert-Keyed c m d.1)

  pub delete-Keyed : (k : K) (m : List (K × WsClient K C)) → Keyed m → Keyed (delete ks.same k m)
  unfolding delete
  delete-Keyed k [] d = tt
  delete-Keyed k ((j, x) ∷ m) d = ground (arith, delete-Keyed k m d.1)

  -- A running gateway over the map `m`, with a counter that is off by `extra`.
  pub record Counted (extra : ℕ) (g : Gateway K C) (m : List (K × WsClient K C)) : Type 0 where
    pub running : g.has_proxy ≡ true
    pub holds : g.clients ≡ some m
    pub distinct : Distinct ks.same m
    pub keyed : Keyed m
    pub count : g.client_num ≡ (length m + extra) % 2 ^ 32

  -- A handler that returns a gateway whose map stands for `f` and whose counter is off by `extra`.
  pub record Keeps (f : Registry K) (extra : ℕ) (o : Option (Gateway K C)) : Type 0 where
    pub after : Gateway K C
    pub returns : o ≡ some after
    pub clients_after : List (K × WsClient K C)
    pub counted : Counted extra after clients_after
    pub stands_for : (k : K) → registered clients_after k ≡ f k

  connect_Keeps :
      (x y : ℕ) (c : WsClient K C) (g : Gateway K C) (m : List (K × WsClient K C))
      → Counted x g m
      → length (insert ks.same c.id c m) + y ≡ length m + x + 1
      → Keeps (set_at c.id true (registered m)) y (handle_client_connect c g)
  unfolding handle_client_connect
  connect_Keeps x y c g m v e = record {
    after = record g {
      clients = some (insert ks.same c.id c m);
      sent = g.sent ++ (new_empty_relay_message g.id ∷ []);
      sequence = (Seq.next g.sequence).0;
      client_num = (g.client_num + 1) % 2 ^ 32;
    };
    returns = ground arith;
    clients_after = insert ks.same c.id c m;
    counted = record {
      running = v.running;
      holds = refl;
      distinct = insert-Distinct ks.same c.id c m v.distinct;
      keyed = insert-Keyed c m v.keyed;
      count = omega (arith, v.count, e);
    };
    stands_for = λ k. registered-insert c.id k c m;
  }

  -- A repeated identifier is counted again.
  pub handle_client_connect-Keeps :
      (x : ℕ) (c : WsClient K C) (g : Gateway K C) (m : List (K × WsClient K C))
      → Counted x g m
      → Keeps
          (set_at c.id true (registered m))
          (x + (if registered m c.id then 1 else 0))
          (handle_client_connect c g)
  handle_client_connect-Keeps x c g m v = elim (Option-cases (lookup ks.same c.id m)) [
    | inl fresh ↦
        rw (fresh, registered)
          (connect_Keeps x (x + 0) c g m v
            (omega (arith, length-insert_new ks.same c.id c m fresh)))
    | inr (old, known) ↦
        rw (known, registered)
          (connect_Keeps x (x + 1) c g m v
            (omega (arith, length-insert_old ks.same c.id c old m known)))
  ]

  disconnect_known :
      (x : ℕ) (c old : WsClient K C) (g : Gateway K C) (m : List (K × WsClient K C))
      → Counted x g m
      → lookup ks.same c.id m ≡ some old
      → Keeps (set_at c.id false (registered m)) x (handle_client_disconnect c g)
  unfolding handle_client_disconnect
  disconnect_known x c old g m v known = record {
    after = record g {
      clients = some (delete ks.same c.id m);
      sent = g.sent ++ (new_empty_relay_message g.id ∷ []);
      sequence = (Seq.next g.sequence).0;
      client_num = (g.client_num + (2 ^ 32 - 1)) % 2 ^ 32;
    };
    returns = ground arith;
    clients_after = delete ks.same c.id m;
    counted = record {
      running = v.running;
      holds = refl;
      distinct = delete-Distinct ks.same c.id m v.distinct;
      keyed = delete-Keyed c.id m v.keyed;
      count = omega (arith, v.count, length-delete ks.same c.id old m known);
    };
    stands_for = λ k. registered-delete c.id k m v.distinct;
  }

  disconnect_unknown :
      (x : ℕ) (c : WsClient K C) (g : Gateway K C) (m : List (K × WsClient K C))
      → Counted x g m
      → lookup ks.same c.id m ≡ none
      → Keeps (set_at c.id false (registered m)) x (handle_client_disconnect c g)
  unfolding handle_client_disconnect
  disconnect_unknown x c g m v missing = record {
    after = g;
    returns = ground arith;
    clients_after = m;
    counted = v;
    stands_for = λ k. sym (set_at-false_of_none c.id k m missing);
  }

  pub handle_client_disconnect-Keeps :
      (x : ℕ) (c : WsClient K C) (g : Gateway K C) (m : List (K × WsClient K C))
      → Counted x g m
      → Keeps (set_at c.id false (registered m)) x (handle_client_disconnect c g)
  handle_client_disconnect-Keeps x c g m v = elim (Option-cases (lookup ks.same c.id m)) [
    | inl missing ↦ disconnect_unknown x c g m v missing
    | inr (old, known) ↦ disconnect_known x c old g m v known
  ]
