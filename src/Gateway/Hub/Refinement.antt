-- ===== src/Gateway/Hub/Refinement.antt =====
-- The handlers of packets against what the registry is to become, one packet after the other.
use fim.Base.{
  ℕ, ◌+◌, ◌<◌, ◌≡◌, refl, ap, subst, fun_ext, ◌≢◌, false, Option, none, some, List, [], ◌∷◌, arith,
}
use fim.Base.GoMap.{lookup}
use fim.Wire.Ksuid.{Ksuids, parse_or_nil}
use fim.Wire.Entity.{Proto, KickOut}
use fim.Wire.Entity
use fim.Wire.Header
use fim.Wire.Message.{Message, entity, get_payload_entity}
use fim.Wire.Pid
use fim.Wire.Relay.{RelayPacket}
use fim.Peer.Client.{WsClient, WsConn}
use fim.Peer.Client.Identity.{NoPanic}
use fim.Gateway.Hub.{Gateway, Packet, connect, disconnect, msg_relay, handle}
use fim.Gateway.Hub.Registry.{Registry, set_at, hits, apply, drift, registered}
use fim.Gateway.Hub.Counting.{Counted, Keeps}
use fim.Gateway.Hub.Balance.{IsSound, handle-Keeps, Keeps-resp}

module _ {K C : Type 0} ⦃ks : Ksuids K⦄ ⦃ws : WsConn C⦄ where
  -- A packet that is no kick-out, and no second connection of one identifier.
  abbrev pub IsPlain : Packet K C → List (K × WsClient K C) → Type 0
  IsPlain (connect c) m = lookup ks.same c.id m ≡ none
  IsPlain (disconnect c) m = Unit {0}
  IsPlain (msg_relay r) m =
      (p : Message) × (r.payload ≡ some p) × (Header.get_pid p.header ≢ Pid.kick_out)

  IsPlain-IsSound :
      (proto : Proto) (p : Packet K C) (m : List (K × WsClient K C)) → IsPlain p m → IsSound proto p
  IsPlain-IsSound proto (connect c) m plain = tt
  IsPlain-IsSound proto (disconnect c) m plain = tt
  IsPlain-IsSound proto (msg_relay r) m (p, here, other) = (p, here, λ e. absurd (other e))

  drift-plain :
      (proto : Proto) (p : Packet K C) (m : List (K × WsClient K C))
      → IsPlain p m
      → drift proto p (registered m) ≡ 0
  unfolding drift
  drift-plain proto (connect c) m plain = rw (plain, registered)
  drift-plain proto (disconnect c) m plain = refl
  drift-plain proto (msg_relay r) m (p, here, other) = rw here (ground (arith, other))

  -- On a gateway whose counter is ahead of the size of its map by `x`, the handler of every plain
  -- packet (a connection of a new identifier, any disconnection, a relayed message that has a
  -- payload and is no kick-out) returns, and leaves the counter ahead by `x` still; exactly the
  -- identifiers that the packet's registry has are then in the map.
  pub handle_plain :
      (x : ℕ) (proto : Proto) (p : Packet K C) (g : Gateway K C) (m : List (K × WsClient K C))
      → NoPanic ws
      → Counted x g m
      → IsPlain p m
      → Keeps (apply proto p (registered m)) x (handle proto p g)
  handle_plain x proto p g m safe v plain =
      Keeps-resp _ _ _ _ _ _ (handle-Keeps x proto p g m safe v (IsPlain-IsSound proto p m plain))
        (λ k. refl) (omega (arith, drift-plain proto p m plain)) refl

  -- A kick-out of a client, with a client among its receivers, takes the client out of the map and
  -- leaves the counter as it was, so that it is ahead by one more than before.
  pub handle-kick_out_drifts :
      (x : ℕ) (proto : Proto) (r : RelayPacket K) (g : Gateway K C) (m : List (K × WsClient K C))
      (p : Message) (k : KickOut) (c : WsClient K C)
      → NoPanic ws
      → Counted x g m
      → r.payload ≡ some p
      → Header.get_pid p.header ≡ Pid.kick_out
      → 0 < hits (registered m) r.receivers
      → get_payload_entity proto p ≡ entity (Entity.kick_out k)
      → lookup ks.same (parse_or_nil k.peer_id) m ≡ some c
      → Keeps
          (set_at (parse_or_nil k.peer_id) false (registered m))
          (x + 1)
          (handle proto (msg_relay r) g)
  unfolding apply drift
  handle-kick_out_drifts x proto r g m p k c safe v here is_kick hit e known =
      Keeps-resp _ _ _ _ _ _ (handle-Keeps x proto (msg_relay r) g m safe v (p, here, λ _. (k, e)))
        (λ i. rw here (ground (arith, is_kick, hit, e)))
        (rw here (ground (arith, is_kick, hit, e, known))) refl

  -- A run over packets, up to the first panic.
  abbrev pub handle_all : Proto → List (Packet K C) → Gateway K C → Option (Gateway K C)
  handle_all proto [] g = some g
  handle_all proto (p ∷ ps) g = elim (handle proto p g) [
    | none ↦ none
    | some g' ↦ handle_all proto ps g'
  ]

  abbrev pub replay : Proto → List (Packet K C) → Registry K → Registry K
  replay proto [] f = f
  replay proto (p ∷ ps) f = replay proto ps (apply proto p f)

  abbrev pub total_drift : Proto → List (Packet K C) → Registry K → ℕ
  total_drift proto [] f = 0
  total_drift proto (p ∷ ps) f = drift proto p f + total_drift proto ps (apply proto p f)

  abbrev pub AreSound : Proto → List (Packet K C) → Type 0
  AreSound proto [] = Unit {0}
  AreSound proto (p ∷ ps) = IsSound proto p × AreSound proto ps

  -- After any packets on which no handler panics, from a gateway whose counter is ahead of the size
  -- of its map by `x`: the run returns a gateway, the identifiers of its map are those of the replay
  -- of the packets on the registry alone, and its counter is ahead by `x` and the drift of the
  -- packets.
  pub handle_all-refines :
      (x : ℕ) (proto : Proto) (ps : List (Packet K C)) (g : Gateway K C)
      (m : List (K × WsClient K C))
      → NoPanic ws
      → Counted x g m
      → AreSound proto ps
      → Keeps
          (replay proto ps (registered m))
          (x + total_drift proto ps (registered m))
          (handle_all proto ps g)
  handle_all-refines x proto [] g m safe v sound = record {
    after = g;
    returns = refl;
    clients_after = m;
    counted = subst (λ n. Counted n g m) (omega arith) v;
    stands_for = λ k. refl;
  }
  handle_all-refines x proto (p ∷ ps) g m safe v (first, rest) =
      let one = handle-Keeps x proto p g m safe v first in
      let same : registered one.clients_after ≡ apply proto p (registered m) =
        fun_ext one.stands_for in
      Keeps-resp _ _ _ _ _ _
        (handle_all-refines (x + drift proto p (registered m)) proto ps one.after one.clients_after
          safe one.counted rest)
        (λ k. ap (λ f. replay proto ps f k) same) (rw same (omega arith))
        (rw (one.returns, handle_all))
