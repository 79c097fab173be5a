-- ===== src/Lgcluster/Proxy/Receiving.antt =====
-- Which packets of the logic servers reach the gateway.
use fim.Base.{
  ◌≡◌, refl, ap, ◌∙◌, Option, none, some, List, [], ◌∷◌, ◌++◌, append-nil, append_assoc, All, Error,
  done, fail,
}
use fim.Wire.Buffer.{Bytes}
use fim.Wire.Ksuid.{Ksuids, KsuidLaws}
use fim.Wire.Relay.{RelayPacket}
use fim.Wire.Relay
use fim.Wire.Relay.RoundTrip.{Carries, decode-Carries}
use fim.Lgcluster.Proxy.{
  Proxy, Receive, new_lg_cluster_proxy, set_receiver, receive_packet, handle_payload,
  handle_logic_server_msg, ignore_packet,
}

-- A payload, with the packet that it carries if it can be decoded.
abbrev pub Item : Type 0 → Type 0
Item K = Bytes × Option (RelayPacket K)

abbrev Log : Type 0 → Type 0
Log K = List (RelayPacket K)

module _ {K : Type 0} where
  abbrev pub payloads : List (Item K) → List Bytes
  payloads [] = []
  payloads (p ∷ ps) = p.0 ∷ payloads ps

  abbrev pub packets : List (Item K) → List (RelayPacket K)
  packets [] = []
  packets ((b, none) ∷ ps) = packets ps
  packets ((b, some m) ∷ ps) = m ∷ packets ps

  -- A receiver that keeps what it is given.
  abbrev pub keep : Receive K (List (RelayPacket K))
  keep pkt g = done tt (g ++ (pkt ∷ []))

module _ {K : Type 0} ⦃ks : Ksuids K⦄ where
  abbrev pub IsItem : Item K → Type 0
  IsItem (b, some m) = Carries b m
  IsItem (b, none) = (e : Error) × (left : Bytes) × (Relay.decode {K = K} b ≡ fail e left)

  pub handle_kept :
      KsuidLaws ks
      → (ps : List (Item K)) (p : Proxy K (Log K)) (g : Log K) → p.receive ≡ some keep
      → All IsItem ps
      → handle_logic_server_msg (payloads ps) p g ≡ some (g ++ packets ps)
  unfolding handle_logic_server_msg handle_payload receive_packet
  handle_kept laws [] p g r items = rw append-nil
  handle_kept laws ((b, none) ∷ ps) p g r items =
      rw (items.0.2, handle_logic_server_msg, handle_payload) (handle_kept laws ps p g r items.1)
  handle_kept laws ((b, some m) ∷ ps) p g r items =
      rw
        (
          decode-Carries laws b m items.0,
          r,
          handle_logic_server_msg,
          handle_payload,
          receive_packet,
        )
        (handle_kept laws ps p (g ++ (m ∷ [])) r items.1
          ∙ ap some (append_assoc g (m ∷ []) (packets ps)))

  handle_ignored :
      KsuidLaws ks
      → (ps : List (Item K)) (p : Proxy K (Log K)) (g : Log K) → p.receive ≡ some ignore_packet
      → All IsItem ps
      → handle_logic_server_msg (payloads ps) p g ≡ some g
  unfolding handle_logic_server_msg handle_payload receive_packet
  handle_ignored laws [] p g r items = refl
  handle_ignored laws ((b, none) ∷ ps) p g r items =
      rw (items.0.2, handle_logic_server_msg, handle_payload) (handle_ignored laws ps p g r items.1)
  handle_ignored laws ((b, some m) ∷ ps) p g r items =
      rw
        (
          decode-Carries laws b m items.0,
          r,
          handle_logic_server_msg,
          handle_payload,
          receive_packet,
        )
        (handle_ignored laws ps p g r items.1)

  -- Payloads of which each carries a packet or cannot be decoded, and a receiver that keeps what it
  -- is given: given to the constructor it gets nothing, and none of the payloads makes the loop
  -- panic; given to SetReceiver it gets every packet, in their order, those behind a bad payload too.
  pub handle_logic_server_msg-set_receiver :
      (ps : List (Item K)) (g : List (RelayPacket K))
      → KsuidLaws ks
      → All IsItem ps
      → (handle_logic_server_msg (payloads ps) (new_lg_cluster_proxy (some keep)) g ≡ some g)
        × (handle_logic_server_msg
              (payloads ps)
              (set_receiver keep (new_lg_cluster_proxy (some keep)))
              g
            ≡ some (g ++ packets ps))
  unfolding new_lg_cluster_proxy set_receiver
  handle_logic_server_msg-set_receiver ps g laws items =
      (handle_ignored laws ps _ g refl items, handle_kept laws ps _ g refl items)

  -- Without a receiver, the first payload that carries a packet makes the loop panic.
  pub handle_logic_server_msg-nil :
      {G : Type 0} (payload : Bytes) (pkt : RelayPacket K) (rest : List Bytes) (g : G)
      → KsuidLaws ks
      → Carries payload pkt
      → handle_logic_server_msg {K = K} (payload ∷ rest) (new_lg_cluster_proxy none) g ≡ none
  unfolding handle_logic_server_msg handle_payload receive_packet new_lg_cluster_proxy
  handle_logic_server_msg-nil payload pkt rest g laws carries =
      rw (decode-Carries laws payload pkt carries, handle_logic_server_msg)
