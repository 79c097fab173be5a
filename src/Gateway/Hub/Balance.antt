-- ===== src/Gateway/Hub/Balance.antt =====
-- What the handlers of packets do with the map of clients and with the counter of clients.
use fim.Base.{
  ℕ, ◌+◌, ◌≡◌, refl, ap, subst, ◌∙◌, inl, inr, ite, true, false, Option, some, List, arith, ◌==◌,
  if◌then◌else◌, Bool-cases, length,
}
use fim.Wire.Ksuid.{Ksuids, parse_or_nil}
use fim.Wire.Entity.{Proto, KickOut}
use fim.Wire.Entity
use fim.Wire.Header
use fim.Wire.Message
use fim.Wire.Message.{Message, entity, get_payload_entity}
use fim.Wire.Pid
use fim.Wire.Relay.{RelayPacket}
use fim.Peer.Client.{WsClient, WsConn}
use fim.Peer.Client.Identity.{NoPanic}
use fim.Gateway.Hub.{
  Gateway, Packet, connect, disconnect, msg_relay, handle, handle_msg_relay, relay_loop,
  after_relay, kick_out,
}
use fim.Gateway.Hub.Registry.{
  Registry, set_at, hits, apply, drift, is_kick_out, registered, hits-no_one,
}
use fim.Gateway.Hub.Counting.{
  Counted, Keeps, handle_client_connect-Keeps, handle_client_disconnect-Keeps,
}
use fim.Gateway.Hub.KickOut.{kick_out-Keeps}
use fim.Gateway.Hub.Relaying.{Relayed, relay_loop_Relayed}

module _ {K C : Type 0} ⦃ks : Ksuids K⦄ ⦃ws : WsConn C⦄ where
  -- A packet on which its handler does not panic: a message that is relayed is there, and if it is a
  -- kick-out its payload is one.
  abbrev pub IsSound : Proto → Packet K C → Type 0
  IsSound proto (connect c) = Unit {0}
  IsSound proto (disconnect c) = Unit {0}
  IsSound proto (msg_relay r) =
      (p : Message) × (r.payload ≡ some p)
      × (Header.get_pid p.header ≡ Pid.kick_out
          → (k : KickOut) × (get_payload_entity proto p ≡ entity (Entity.kick_out k)))

  -- The same under another name of the registry, the counter and the outcome.
  pub Keeps-resp :
      (f f' : Registry K) (x x' : ℕ) (o o' : Option (Gateway K C))
      → Keeps f x o
      → ((k : K) → f k ≡ f' k)
      → x ≡ x'
      → o' ≡ o
      → Keeps f' x' o'
  Keeps-resp f f' x x' o o' kept same_view same_count same_outcome = record {
    after = kept.after;
    returns = same_outcome ∙ kept.returns;
    clients_after = kept.clients_after;
    counted = subst (λ n. Counted n kept.after kept.clients_after) same_count kept.counted;
    stands_for = λ k. kept.stands_for k ∙ same_view k;
  }

  module _ (x : ℕ) (proto : Proto) (r : RelayPacket K) (g : Gateway K C)
      (m : List (K × WsClient K C)) (p : Message) (here : r.payload ≡ some p) where
    -- A message that is no effective kick-out.
    relay_plain :
        (o : Option (Gateway K C)) (after : Gateway K C) (m' : List (K × WsClient K C))
        → is_kick_out (registered m) r.receivers p ≡ false
        → o ≡ some after
        → Counted x after m'
        → ((k : K) → registered m' k ≡ registered m k)
        → Keeps
            (apply {C = C} proto (msg_relay r) (registered m))
            (x + drift {C = C} proto (msg_relay r) (registered m))
            o
    unfolding apply drift
    relay_plain o after m' plain e v same =
        Keeps-resp (registered m) _ x _ (some after) o
          (record {
            after = after;
            returns = refl;
            clients_after = m';
            counted = v;
            stands_for = same;
          })
          (λ k. rw (here, plain, apply)) (rw (here, plain, drift) (omega arith)) e

    module _ (safe : NoPanic ws) (v : Counted x g m) where
      loop : Relayed x 0 r.receivers m (relay_loop (Message.bytes p) r.receivers 0 g)
      loop = relay_loop_Relayed x (Message.bytes p) r.receivers safe 0 g m v

      -- What is left of the handler behind the loop.
      handle_msg_relay-loop :
          (length r.receivers == 0) ≡ false
          → handle_msg_relay proto r g
            ≡ after_relay proto p (some (loop.after, 0 + hits (registered m) r.receivers))
      unfolding handle_msg_relay
      handle_msg_relay-loop e = rw (e, here) (rw loop.returns)

      relay_unreached :
          (length r.receivers == 0) ≡ false
          → (hits (registered m) r.receivers == 0) ≡ true
          → Keeps
              (apply {C = C} proto (msg_relay r) (registered m))
              (x + drift {C = C} proto (msg_relay r) (registered m))
              (handle_msg_relay proto r g)
      unfolding after_relay
      relay_unreached some_one none_hit =
          relay_plain (handle_msg_relay proto r g) loop.after loop.clients_after (rw none_hit)
            (handle_msg_relay-loop some_one ∙ ground arith) loop.counted loop.same_keys

      relay_other :
          (length r.receivers == 0) ≡ false
          → (Header.get_pid p.header == Pid.kick_out) ≡ false
          → Keeps
              (apply {C = C} proto (msg_relay r) (registered m))
              (x + drift {C = C} proto (msg_relay r) (registered m))
              (handle_msg_relay proto r g)
      unfolding after_relay
      relay_other some_one other =
          relay_plain (handle_msg_relay proto r g) loop.after loop.clients_after (ground arith)
            (handle_msg_relay-loop some_one ∙ ground arith) loop.counted loop.same_keys

      kick_view :
          (k : KickOut)
          → is_kick_out (registered m) r.receivers p ≡ true
          → get_payload_entity proto p ≡ entity (Entity.kick_out k)
          → (i : K)
          → set_at (parse_or_nil k.peer_id) false (registered loop.clients_after) i
            ≡ apply {C = C} proto (msg_relay r) (registered m) i
      unfolding apply
      kick_view k kicks e i =
          rw (here, kicks, e)
            (ap (λ b. ite (ks.same (parse_or_nil k.peer_id) i) false b) (loop.same_keys i))

      kick_drift :
          (k : KickOut)
          → is_kick_out (registered m) r.receivers p ≡ true
          → get_payload_entity proto p ≡ entity (Entity.kick_out k)
          → x + (if registered loop.clients_after (parse_or_nil k.peer_id) then 1 else 0)
            ≡ x + drift {C = C} proto (msg_relay r) (registered m)
      unfolding drift
      kick_drift k kicks e = rw (here, kicks, e, loop.same_keys (parse_or_nil k.peer_id))

      relay_kick :
          (k : KickOut)
          → (length r.receivers == 0) ≡ false
          → (hits (registered m) r.receivers == 0) ≡ false
          → (Header.get_pid p.header == Pid.kick_out) ≡ true
          → get_payload_entity proto p ≡ entity (Entity.kick_out k)
          → Keeps
              (apply {C = C} proto (msg_relay r) (registered m))
              (x + drift {C = C} proto (msg_relay r) (registered m))
              (handle_msg_relay proto r g)
      unfolding after_relay
      relay_kick k some_one hit is_kick e =
          Keeps-resp _ _ _ _ (kick_out proto p loop.after) (handle_msg_relay proto r g)
            (kick_out-Keeps x proto p k loop.after loop.clients_after loop.counted e)
            (kick_view k (rw hit is_kick) e) (kick_drift k (rw hit is_kick) e)
            (handle_msg_relay-loop some_one ∙ ground arith)

      -- Without receivers nothing happens.
      relay_empty :
          (length r.receivers == 0) ≡ true
          → Keeps
              (apply {C = C} proto (msg_relay r) (registered m))
              (x + drift {C = C} proto (msg_relay r) (registered m))
              (handle_msg_relay proto r g)
      unfolding handle_msg_relay
      relay_empty no_one =
          relay_plain (handle_msg_relay proto r g) g m
            (rw (hits-no_one r.receivers (registered m) no_one)) (rw no_one) v (λ k. refl)

      relay_reached :
          (length r.receivers == 0) ≡ false
          → (hits (registered m) r.receivers == 0) ≡ false
          → (Header.get_pid p.header ≡ Pid.kick_out
              → (k : KickOut) × (get_payload_entity proto p ≡ entity (Entity.kick_out k)))
          → Keeps
              (apply {C = C} proto (msg_relay r) (registered m))
              (x + drift {C = C} proto (msg_relay r) (registered m))
              (handle_msg_relay proto r g)
      relay_reached some_one hit is_one =
          elim (Bool-cases (Header.get_pid p.header == Pid.kick_out)) [
            | inl kicks ↦ let k = is_one (ground arith) in relay_kick k.0 some_one hit kicks k.1
            | inr other ↦ relay_other some_one other
          ]

      relay_Keeps :
          (Header.get_pid p.header ≡ Pid.kick_out
            → (k : KickOut) × (get_payload_entity proto p ≡ entity (Entity.kick_out k)))
          → Keeps
              (apply {C = C} proto (msg_relay r) (registered m))
              (x + drift {C = C} proto (msg_relay r) (registered m))
              (handle_msg_relay proto r g)
      relay_Keeps is_one = elim (Bool-cases (length r.receivers == 0)) [
        | inl no_one ↦ relay_empty no_one
        | inr some_one ↦ elim (Bool-cases (hits (registered m) r.receivers == 0)) [
          | inl none_hit ↦ relay_unreached some_one none_hit
          | inr hit ↦ relay_reached some_one hit is_one
        ]
      ]

  pub handle-Keeps :
      (x : ℕ) (proto : Proto) (p : Packet K C) (g : Gateway K C) (m : List (K × WsClient K C))
      → NoPanic ws
      → Counted x g m
      → IsSound proto p
      → Keeps (apply proto p (registered m)) (x + drift proto p (registered m)) (handle proto p g)
  unfolding handle apply drift
  handle-Keeps x proto (connect c) g m safe v sound = handle_client_connect-Keeps x c g m v
  handle-Keeps x proto (disconnect c) g m safe v sound =
      Keeps-resp _ _ _ _ _ _ (handle_client_disconnect-Keeps x c g m v) (λ k. refl) (omega arith)
        refl
  handle-Keeps x proto (msg_relay r) g m safe v (p, here, is_one) =
      relay_Keeps x proto r g m p here safe v is_one
