-- ===== src/Gateway/Hub/Relaying.antt =====
-- The relay of a message to clients: who is reached, and what becomes of the map and its counter.
use fim.Base.{
  ℕ, ◌+◌, ◌≡◌, refl, ap, subst, ◌∙◌, inl, inr, Option, none, some, List, [], ◌∷◌, ◌++◌, arith,
  Option-cases, Outcome, done, fail, panic,
}
use fim.Base.GoMap.{
  lookup, insert, insert-Distinct, length-insert_old, lookup-insert_self, lookup-insert_ne,
}
use fim.Wire.Buffer.{Bytes}
use fim.Wire.Ksuid.{Ksuids}
use fim.Wire.Relay.{new_empty_relay_message}
use fim.Peer.Seq
use fim.Peer.Client.{WsClient, WsConn}
use fim.Peer.Client
use fim.Peer.Client.Identity.{NoPanic, SameId, push-SameId}
use fim.Gateway.Hub.{Gateway, push_to, relay_loop}
use fim.Gateway.Hub.Counting.{Counted, lookup-Keyed, insert-Keyed}
use fim.Gateway.Hub.Registry.{registered, hits}

module _ {K C : Type 0} ⦃ks : Ksuids K⦄ ⦃ws : WsConn C⦄ where
  abbrev pub SameKeys : List (K × WsClient K C) → List (K × WsClient K C) → Type 0
  SameKeys m m' = (k : K) → registered m' k ≡ registered m k

  hits-SameKeys :
      (rs : List K) (m m' : List (K × WsClient K C))
      → SameKeys m m'
      → hits (registered m') rs ≡ hits (registered m) rs
  hits-SameKeys [] m m' s = refl
  hits-SameKeys (r ∷ rs) m m' s = ground (arith, s r, hits-SameKeys rs m m' s)

  insert-SameKeys :
      (c old : WsClient K C) (m : List (K × WsClient K C))
      → lookup ks.same c.id m ≡ some old
      → SameKeys m (insert ks.same c.id c m)
  insert-SameKeys c old m e k = elim (ks.same c.id k) [
    | yes same ↦
        subst (λ j. registered (insert ks.same c.id c m) j ≡ registered m j) same
          (rw (lookup-insert_self ks.same c.id c m, e, registered))
    | no other ↦ rw (lookup-insert_ne ks.same c.id k c m other, registered)
  ]

  -- A loop or a push that leaves a map with the same keys.
  record Pushed (x : ℕ) (m : List (K × WsClient K C)) (o : Option (Gateway K C)) : Type 0 where
    after : Gateway K C
    returns : o ≡ some after
    clients_after : List (K × WsClient K C)
    counted : Counted x after clients_after
    same_keys : SameKeys m clients_after

  put_again :
      (x : ℕ) (k : K) (c old : WsClient K C) (g : Gateway K C) (m : List (K × WsClient K C))
      → Counted x g m
      → lookup ks.same k m ≡ some old
      → c.id ≡ k
      → Pushed x m (some (record g { clients = some (insert ks.same c.id c m) }))
  put_again x k c old g m v known e = record {
    after = record g { clients = some (insert ks.same c.id c m) };
    returns = refl;
    clients_after = insert ks.same c.id c m;
    counted = record {
      running = v.running;
      holds = refl;
      distinct = insert-Distinct ks.same c.id c m v.distinct;
      keyed = insert-Keyed c m v.keyed;
      count = omega (arith, v.count, length-insert_old ks.same c.id c old m known');
    };
    same_keys = insert-SameKeys c old m known';
  }
    where
      known' : lookup ks.same c.id m ≡ some old
      known' = rw e known

  push_to-Pushed :
      (x : ℕ) (k : K) (c : WsClient K C) (payload : Bytes) (g : Gateway K C)
      (m : List (K × WsClient K C))
      → NoPanic ws
      → Counted x g m
      → lookup ks.same k m ≡ some c
      → Pushed x m (push_to c payload g)
  unfolding push_to
  push_to-Pushed x k c payload g m safe v known =
      go (Client.push payload c) refl (push-SameId safe payload c)
    where
      at_key : c.id ≡ k
      at_key = lookup-Keyed k c m v.keyed known

      go :
          (o : Outcome (WsClient K C) (Unit {0}))
          → Client.push payload c ≡ o
          → SameId c.id o
          → Pushed x m (push_to c payload g)
      go (done _ c') e same =
          rw (e, push_to, v.holds) (put_again x k c' c g m v known (same ∙ at_key))
      go (fail _ c') e same =
          rw (e, push_to, v.holds) (put_again x k c' c g m v known (same ∙ at_key))
      go panic e same = absurd same

  -- The loop over the receivers, from `aff` on.
  pub record Relayed (x aff : ℕ) (rs : List K) (m : List (K × WsClient K C))
      (o : Option (Gateway K C × ℕ)) : Type 0 where
    pub after : Gateway K C
    pub returns : o ≡ some (after, aff + hits (registered m) rs)
    pub clients_after : List (K × WsClient K C)
    pub counted : Counted x after clients_after
    pub same_keys : SameKeys m clients_after

  module _ (x aff : ℕ) (payload : Bytes) (r : K) (rs : List K) (g : Gateway K C)
      (m : List (K × WsClient K C)) (v : Counted x g m) where
    hit_round :
        (c : WsClient K C)
        → lookup ks.same r m ≡ some c
        → NoPanic ws
        → ((g' : Gateway K C) (m' : List (K × WsClient K C))
            → Counted x g' m'
            → Relayed x (aff + 1) rs m' (relay_loop payload rs (aff + 1) g'))
        → Relayed x aff (r ∷ rs) m (relay_loop payload (r ∷ rs) aff g)
    unfolding relay_loop
    hit_round c e safe ih =
        let p = push_to-Pushed x r c payload g m safe v e in
        let l = ih p.after p.clients_after p.counted in
        let first : relay_loop payload (r ∷ rs) aff g ≡ relay_loop payload rs (aff + 1) p.after =
          ground (arith, v.holds, p.returns) in
        let count : aff + 1 + hits (registered p.clients_after) rs
            ≡ aff + hits (registered m) (r ∷ rs) =
          ground (arith, hits-SameKeys rs m p.clients_after p.same_keys) in
        record {
          after = l.after;
          returns = first ∙ l.returns ∙ ap (λ n. some (l.after, n)) count;
          clients_after = l.clients_after;
          counted = l.counted;
          same_keys = λ k. l.same_keys k ∙ p.same_keys k;
        }

    -- A receiver that is no client: its logout is sent.
    miss_round :
        lookup ks.same r m ≡ none
        → ((g' : Gateway K C) (m' : List (K × WsClient K C))
            → Counted x g' m'
            → Relayed x aff rs m' (relay_loop payload rs aff g'))
        → Relayed x aff (r ∷ rs) m (relay_loop payload (r ∷ rs) aff g)
    unfolding relay_loop
    miss_round e ih =
        let g' : Gateway K C = record g {
          sent = g.sent ++ (new_empty_relay_message g.id ∷ []);
          sequence = (Seq.next g.sequence).0;
        } in
        let l = ih g' m (record {
          running = v.running;
          holds = v.holds;
          distinct = v.distinct;
          keyed = v.keyed;
          count = v.count;
        }) in
        let first : relay_loop payload (r ∷ rs) aff g ≡ relay_loop payload rs aff g' =
          ground (arith, v.holds, v.running) in
        let count : aff + hits (registered m) rs ≡ aff + hits (registered m) (r ∷ rs) =
          ground arith in
        record {
          after = l.after;
          returns = first ∙ l.returns ∙ ap (λ n. some (l.after, n)) count;
          clients_after = l.clients_after;
          counted = l.counted;
          same_keys = l.same_keys;
        }

    round :
        NoPanic ws
        → ((n : ℕ) (g' : Gateway K C) (m' : List (K × WsClient K C))
            → Counted x g' m'
            → Relayed x n rs m' (relay_loop payload rs n g'))
        → Relayed x aff (r ∷ rs) m (relay_loop payload (r ∷ rs) aff g)
    round safe ih = elim (Option-cases (lookup ks.same r m)) [
      | inl e ↦ miss_round e (ih aff)
      | inr (c, e) ↦ hit_round c e safe (ih (aff + 1))
    ]

  pub relay_loop_Relayed :
      (x : ℕ) (payload : Bytes) (rs : List K)
      → NoPanic ws
      → (aff : ℕ) (g : Gateway K C) (m : List (K × WsClient K C)) → Counted x g m
      → Relayed x aff rs m (relay_loop payload rs aff g)
  relay_loop_Relayed x payload [] safe aff g m v = record {
    after = g;
    returns = unfold relay_loop in ap (λ n. some (g, n)) (omega arith);
    clients_after = m;
    counted = v;
    same_keys = λ k. refl;
  }
  relay_loop_Relayed x payload (r ∷ rs) safe aff g m v =
      round x aff payload r rs g m v safe (relay_loop_Relayed x payload rs safe)
