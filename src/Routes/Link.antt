-- ===== src/Routes/Link.antt =====
-- Relay packets on a connection between a gateway and a logic server, in either direction.
use fim.Base.{
  ◌+◌, ◌*◌, ◌^◌, ◌<◌, ◌≡◌, refl, sym, ap, ap₂, subst, ◌∙◌, true, none, some, List, [], ◌∷◌, arith,
  length, All, done,
}
use fim.Wire.Buffer.{Bytes, buffer}
use fim.Wire.Ksuid.{Ksuids, KsuidLaws}
use fim.Wire.Message.{Message}
use fim.Wire.Relay.{RelayPacket}
use fim.Wire.Relay
use fim.Wire.Relay.RoundTrip.{
  IsSendable, Carries, layout, layout-Carries, length-layout, encode-layout,
}
use fim.Peer.OpCode
use fim.Peer.Stream.{NetConn, write_control, read_handler}
use fim.Peer.Stream.Delivery.{stream, read_handler-stream}
use fim.Peer.Server.Delivery.{
  messages, not_empty, IsShort, messages-IsSent, delivered-messages, answered-messages,
}

module _ {K : Type 0} ⦃ks : Ksuids K⦄ where
  -- A packet with a framed payload that fits a frame.
  pub record IsOutgoing (m : RelayPacket K) : Type 0 where
    pub message : Message
    pub sendable : IsSendable m message
    pub fits :
        2 * ks.size + length m.username + ks.size * length m.receivers + length message.payload + 19
        < 2 ^ 32

  abbrev pub relay_bytes : RelayPacket K → Bytes
  relay_bytes m = elim m.payload [ none ↦ [] | some p ↦ layout m p [] ]

  abbrev pub all_bytes : List (RelayPacket K) → List Bytes
  all_bytes [] = []
  all_bytes (m ∷ ms) = relay_bytes m ∷ all_bytes ms

  relay_bytes-layout :
      (m : RelayPacket K) (o : IsOutgoing m) → relay_bytes m ≡ layout m o.message []
  relay_bytes-layout m o = rw (o.sendable.has_payload, relay_bytes)

  pub bytes-relay_bytes : (m : RelayPacket K) → IsOutgoing m → Relay.bytes m ≡ some (relay_bytes m)
  bytes-relay_bytes m o =
      (layout-Carries m o.message o.sendable).written ∙ ap some (sym (relay_bytes-layout m o))

  pub encode-relay_bytes :
      (m : RelayPacket K) → IsOutgoing m → Relay.encode m [] ≡ done tt (relay_bytes m)
  encode-relay_bytes m o =
      encode-layout m o.message o.sendable ∙ ap (done tt) (sym (relay_bytes-layout m o))

  pub relay_bytes-Carries : (m : RelayPacket K) → IsOutgoing m → Carries (relay_bytes m) m
  relay_bytes-Carries m o =
      subst (λ b. Carries b m) (sym (relay_bytes-layout m o))
        (layout-Carries m o.message o.sendable)

  length-relay_bytes :
      KsuidLaws ks
      → (m : RelayPacket K) → IsOutgoing m
      → (0 < length (relay_bytes m)) × (length (relay_bytes m) < 2 ^ 32)
  length-relay_bytes laws m o =
      rw (relay_bytes-layout m o)
        (rw (length-layout m o.message laws o.sendable) (omega arith, omega (arith, o.fits)))

  pub relay_bytes-IsShort :
      KsuidLaws ks → (m : RelayPacket K) → IsOutgoing m → IsShort (relay_bytes m)
  relay_bytes-IsShort laws m o = (length-relay_bytes laws m o).1

  all_bytes-IsShort :
      KsuidLaws ks → (ms : List (RelayPacket K)) → All IsOutgoing ms → All IsShort (all_bytes ms)
  all_bytes-IsShort laws [] o = tt
  all_bytes-IsShort laws (m ∷ ms) (o, os) =
      (relay_bytes-IsShort laws m o, all_bytes-IsShort laws ms os)

  not_empty-all_bytes :
      KsuidLaws ks
      → (ms : List (RelayPacket K)) → All IsOutgoing ms
      → not_empty (all_bytes ms) ≡ all_bytes ms
  not_empty-all_bytes laws [] o = refl
  not_empty-all_bytes laws (m ∷ ms) (o, os) =
      ground (arith, length-relay_bytes laws m o, not_empty-all_bytes laws ms os)

  -- What the frames of outgoing packets become on the other side.
  pub read_handler-all_bytes :
      {V : Type 0} (far : NetConn V) (pong : V → V) (ms : List (RelayPacket K)) (v : V)
      → ((u : V) → write_control ⦃c = far⦄ OpCode.pong [] u ≡ done tt (pong u))
      → KsuidLaws ks
      → All IsOutgoing ms
      → read_handler ⦃c = far⦄ (stream (messages (all_bytes ms))) v
        ≡ record { messages = all_bytes ms; out = v; ended = true }
  read_handler-all_bytes far pong ms v writable laws o =
      read_handler-stream ⦃c = far⦄ pong writable (messages (all_bytes ms)) v
        (messages-IsSent (all_bytes ms) (all_bytes-IsShort laws ms o))
      ∙ ap₂ (λ ms u. record { messages = ms; out = u; ended = true })
          (delivered-messages (all_bytes ms) ∙ not_empty-all_bytes laws ms o)
          (answered-messages pong (all_bytes ms) v)
