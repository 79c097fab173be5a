-- ===== src/Gateway/Hub/Hollow.antt =====
-- The packets that the handlers of the gateway send to the logic servers.
use fim.Base.{
  ℕ, ◌+◌, ◌≡◌, refl, subst, inl, inr, Option, none, some, List, [], ◌∷◌, ◌++◌, arith, ◌==◌,
  Bool-cases, Option-cases, length, All,
}
use fim.Wire.Buffer.{Bytes}
use fim.Wire.Ksuid.{Ksuids}
use fim.Wire.Entity.{Proto}
use fim.Wire.Message.{Message, entity, get_payload_entity}
use fim.Wire.Message
use fim.Wire.Relay.{RelayPacket, new_empty_relay_message}
use fim.Peer.Client.{WsClient, WsConn}
use fim.Gateway.Hub.{
  Gateway, Packet, find_client, connect, disconnect, msg_relay, handle, handle_client_connect,
  send_disconnect_packet, handle_client_disconnect, push_to, relay_loop, kick_out, after_relay,
  handle_msg_relay,
}
use fim.Gateway.Hub.Refinement.{handle_all}

-- A packet without a payload.
abbrev pub IsHollow : {K : Type 0} → RelayPacket K → Type 0
IsHollow p = p.payload ≡ none

All-snoc :
    {K : Type 0} (ps : List (RelayPacket K)) (p : RelayPacket K)
    → All IsHollow ps
    → IsHollow p
    → All IsHollow (ps ++ (p ∷ []))
All-snoc [] p hs h = (h, tt)
All-snoc (q ∷ ps) p (first, hs) h = (first, All-snoc ps p hs h)

pub new_empty_relay_message-IsHollow :
    {K : Type 0} ⦃ks : Ksuids K⦄ (k : K) → IsHollow (new_empty_relay_message k)
unfolding new_empty_relay_message
new_empty_relay_message-IsHollow k = refl

module _ {K C : Type 0} ⦃ks : Ksuids K⦄ ⦃ws : WsConn C⦄ where
  -- Nothing that has been sent has a payload; a panic sends nothing more.
  abbrev pub SendsHollow : Option (Gateway K C) → Type 0
  SendsHollow none = Unit {0}
  SendsHollow (some g) = All IsHollow g.sent

  abbrev LoopsHollow : Option (Gateway K C × ℕ) → Type 0
  LoopsHollow none = Unit {0}
  LoopsHollow (some (g, aff)) = All IsHollow g.sent

  IsHollow-one :
      (g : Gateway K C)
      → All IsHollow g.sent
      → All IsHollow (g.sent ++ (new_empty_relay_message g.id ∷ []))
  IsHollow-one g h =
      All-snoc g.sent (new_empty_relay_message g.id) h (new_empty_relay_message-IsHollow g.id)

  handle_client_connect-hollow :
      (c : WsClient K C) (g : Gateway K C)
      → All IsHollow g.sent
      → SendsHollow (handle_client_connect c g)
  unfolding handle_client_connect
  handle_client_connect-hollow c g h = ground (arith, IsHollow-one g h)

  send_disconnect_packet-hollow :
      (k : K) (g : Gateway K C) → All IsHollow g.sent → SendsHollow (send_disconnect_packet k g)
  unfolding send_disconnect_packet
  send_disconnect_packet-hollow k g h = ground (arith, IsHollow-one g h)

  handle_client_disconnect-hollow :
      (c : WsClient K C) (g : Gateway K C)
      → All IsHollow g.sent
      → SendsHollow (handle_client_disconnect c g)
  unfolding handle_client_disconnect send_disconnect_packet
  handle_client_disconnect-hollow c g h = ground (arith, IsHollow-one g h)

  push_to-hollow :
      (c : WsClient K C) (payload : Bytes) (g : Gateway K C)
      → All IsHollow g.sent
      → SendsHollow (push_to c payload g)
  unfolding push_to
  push_to-hollow c payload g h = ground arith

  behind :
      (o : Option (Gateway K C)) (f : Gateway K C → Option (Gateway K C × ℕ))
      → SendsHollow o
      → ((g : Gateway K C) → All IsHollow g.sent → LoopsHollow (f g))
      → LoopsHollow (elim o [ none ↦ none | some g ↦ f g ])
  behind none f h all = tt
  behind (some g) f h all = all g h

  relay_loop-hollow :
      (payload : Bytes) (rs : List K) (aff : ℕ) (g : Gateway K C)
      → All IsHollow g.sent
      → LoopsHollow (relay_loop payload rs aff g)
  unfolding relay_loop
  relay_loop-hollow payload [] aff g h = h
  relay_loop-hollow payload (r ∷ rs) aff g h = elim (Option-cases (find_client r g)) [
    | inl e ↦
        rw (e, relay_loop)
          (behind (send_disconnect_packet r g) (relay_loop payload rs aff)
            (send_disconnect_packet-hollow r g h) (relay_loop-hollow payload rs aff))
    | inr (c, e) ↦
        rw (e, relay_loop)
          (behind (push_to c payload g) (relay_loop payload rs (aff + 1))
            (push_to-hollow c payload g h) (relay_loop-hollow payload rs (aff + 1)))
  ]

  kick_out-hollow :
      (proto : Proto) (m : Message) (g : Gateway K C)
      → All IsHollow g.sent
      → SendsHollow (kick_out proto m g)
  unfolding kick_out
  kick_out-hollow proto m g h = ground arith

  after_relay-hollow :
      (proto : Proto) (m : Message) (o : Option (Gateway K C × ℕ))
      → LoopsHollow o
      → SendsHollow (after_relay proto m o)
  unfolding after_relay
  after_relay-hollow proto m none h = tt
  after_relay-hollow proto m (some (g, aff)) h = ground (arith, kick_out-hollow proto m g h)

  handle_msg_relay-hollow :
      (proto : Proto) (r : RelayPacket K) (g : Gateway K C)
      → All IsHollow g.sent
      → SendsHollow (handle_msg_relay proto r g)
  unfolding handle_msg_relay
  handle_msg_relay-hollow proto r g h = elim (Bool-cases (length r.receivers == 0)) [
    | inl e ↦ rw e h
    | inr e ↦ elim (Option-cases r.payload) [
      | inl n ↦ rw (e, n) tt
      | inr (m, here) ↦
          rw (e, here)
            (after_relay-hollow proto m _ (relay_loop-hollow (Message.bytes m) r.receivers 0 g h))
    ]
  ]

  handle-hollow :
      (proto : Proto) (p : Packet K C) (g : Gateway K C)
      → All IsHollow g.sent
      → SendsHollow (handle proto p g)
  unfolding handle
  handle-hollow proto (connect c) g h = handle_client_connect-hollow c g h
  handle-hollow proto (disconnect c) g h = handle_client_disconnect-hollow c g h
  handle-hollow proto (msg_relay r) g h = handle_msg_relay-hollow proto r g h

  -- Everything that a run over packets sends.
  pub handle_all-hollow :
      (proto : Proto) (ps : List (Packet K C)) (g : Gateway K C)
      → All IsHollow g.sent
      → SendsHollow (handle_all proto ps g)
  handle_all-hollow proto [] g h = h
  handle_all-hollow proto (p ∷ ps) g h = elim (Option-cases (handle proto p g)) [
    | inl e ↦ rw (e, handle_all) tt
    | inr (g', e) ↦
        rw (e, handle_all)
          (handle_all-hollow proto ps g' (subst SendsHollow e (handle-hollow proto p g h)))
  ]

  pub handle-connect_sends :
      (proto : Proto) (c : WsClient K C) (g g' : Gateway K C)
      → handle proto (connect c) g ≡ some g'
      → g'.sent ≡ g.sent ++ (new_empty_relay_message g.id ∷ [])
  unfolding handle handle_client_connect
  handle-connect_sends proto c g g' h = ground arith
