-- ===== src/Gateway/Hub/Registry.antt =====
-- What the gateway's map promises, without its clients, its order and its counter: which identifiers
-- are registered; and what each kind of packet is to do with that.
use fim.Base.{
  ℕ, ◌+◌, ◌≡◌, refl, ite, if_pos, if_neg, Bool, true, false, none, some, List, [], ◌∷◌, arith, ◌==◌,
  if◌then◌else◌, length,
}
use fim.Base.GoMap.{
  lookup, insert, delete, Distinct, lookup-insert_self, lookup-insert_ne, lookup-delete_self,
  lookup-delete_ne,
}
use fim.Wire.Ksuid.{Ksuids, parse_or_nil}
use fim.Wire.Entity.{Proto}
use fim.Wire.Entity
use fim.Wire.Header
use fim.Wire.Message.{Message, EntityResult, entity, get_payload_entity}
use fim.Wire.Pid
use fim.Peer.Client.{WsClient}
use fim.Gateway.Hub.{Packet, connect, disconnect, msg_relay}

abbrev pub Registry : Type 0 → Type 0
Registry K = K → Bool

module _ {K : Type 0} ⦃ks : Ksuids K⦄ where
  abbrev pub set_at : K → Bool → Registry K → Registry K
  set_at i b f k = ite (ks.same i k) b (f k)

  -- How many of the receivers are registered.
  abbrev pub hits : Registry K → List K → ℕ
  hits f [] = 0
  hits f (r ∷ rs) = let n = hits f rs in if f r then n + 1 else n

  pub hits-no_one : (rs : List K) (f : Registry K) → (length rs == 0) ≡ true → hits f rs ≡ 0
  hits-no_one [] f e = refl
  hits-no_one (r ∷ rs) f e = absurd (ground arith)

  abbrev pub is_kick_out : Registry K → List K → Message → Bool
  is_kick_out f rs p = if hits f rs == 0 then false else Header.get_pid p.header == Pid.kick_out

  abbrev pub unregister : EntityResult → Registry K → Registry K
  unregister (entity (Entity.kick_out k)) f = set_at (parse_or_nil k.peer_id) false f
  unregister _ f = f

  abbrev pub forgotten : EntityResult → Registry K → ℕ
  forgotten (entity (Entity.kick_out k)) f = if f (parse_or_nil k.peer_id) then 1 else 0
  forgotten _ f = 0

  -- A connection registers its identifier, a disconnection takes it out, and so does a kick-out that
  -- reaches a registered identifier with the identifier that it names. No other message changes it.
  unfoldable pub apply : {C : Type 0} → Proto → Packet K C → Registry K → Registry K
  apply proto (connect c) f = set_at c.id true f
  apply proto (disconnect c) f = set_at c.id false f
  apply proto (msg_relay r) f = elim r.payload [
    | none ↦ f
    | some p ↦ if is_kick_out f r.receivers p then unregister (get_payload_entity proto p) f else f
  ]

  -- By how much a packet makes the counter too large: a second connection of an identifier is counted
  -- again, and a client that is kicked out is not counted down.
  unfoldable pub drift : {C : Type 0} → Proto → Packet K C → Registry K → ℕ
  drift proto (connect c) f = if f c.id then 1 else 0
  drift proto (disconnect c) f = 0
  drift proto (msg_relay r) f = elim r.payload [
    | none ↦ 0
    | some p ↦ if is_kick_out f r.receivers p then forgotten (get_payload_entity proto p) f else 0
  ]

  module _ {C : Type 0} where
    -- The registry that a map stands for.
    abbrev pub registered : List (K × WsClient K C) → Registry K
    registered m k = elim (lookup ks.same k m) [ none ↦ false | some _ ↦ true ]

    pub registered-insert :
        (i k : K) (c : WsClient K C) (m : List (K × WsClient K C))
        → registered (insert ks.same i c m) k ≡ set_at i true (registered m) k
    registered-insert i k c m = elim (ks.same i k) [
      | yes e ↦ rw (if_pos _ e) (rw (← e) (rw (lookup-insert_self ks.same i c m, registered)))
      | no n ↦ rw (if_neg _ n) (rw (lookup-insert_ne ks.same i k c m n, registered))
    ]

    pub registered-delete :
        (i k : K) (m : List (K × WsClient K C))
        → Distinct ks.same m
        → registered (delete ks.same i m) k ≡ set_at i false (registered m) k
    registered-delete i k m d = elim (ks.same i k) [
      | yes e ↦ rw (if_pos _ e) (rw (← e) (rw (lookup-delete_self ks.same i m d, registered)))
      | no n ↦ rw (if_neg _ n) (rw (lookup-delete_ne ks.same i k m n, registered))
    ]

    -- Taking out what is not registered changes nothing.
    pub set_at-false_of_none :
        (i k : K) (m : List (K × WsClient K C))
        → lookup ks.same i m ≡ none
        → set_at i false (registered m) k ≡ registered m k
    set_at-false_of_none i k m h = elim (ks.same i k) [
      | yes e ↦ rw (if_pos _ e) (rw (← e) (rw (h, registered)))
      | no n ↦ rw (if_neg _ n)
    ]
