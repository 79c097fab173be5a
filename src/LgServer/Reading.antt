-- ===== src/LgServer/Reading.antt =====
-- What a logic server hands on of the payloads that it reads.
use fim.Base.{◌≡◌, ap, ◌∙◌, List, [], ◌∷◌, ◌++◌, append-nil, append_assoc, All, Error, fail}
use fim.Wire.Buffer.{Bytes}
use fim.Wire.Ksuid.{Ksuids, KsuidLaws}
use fim.Wire.Relay.{RelayPacket}
use fim.Wire.Relay
use fim.Wire.Relay.RoundTrip.{Carries, decode-Carries}
use fim.LgServer.{LgServer, read_handler}

module _ {K : Type 0} ⦃ks : Ksuids K⦄ where
  abbrev pub payloads : List (Bytes × RelayPacket K) → List Bytes
  payloads [] = []
  payloads ((b, m) ∷ ps) = b ∷ payloads ps

  abbrev pub packets : List (Bytes × RelayPacket K) → List (RelayPacket K)
  packets [] = []
  packets ((b, m) ∷ ps) = m ∷ packets ps

  -- The payloads carry the packets, up to one that Decode does not read: exactly those packets are
  -- handed to the protocol handler, in their order, and none of what comes after it.
  pub read_handler-until :
      {W : Type 0} (ps : List (Bytes × RelayPacket K)) (bad : Bytes) (rest : List Bytes)
      (lg : LgServer K W) (e : Error) (left : Bytes)
      → KsuidLaws ks
      → All (λ (p : Bytes × RelayPacket K). Carries p.0 p.1) ps
      → Relay.decode {K = K} bad ≡ fail e left
      → read_handler (payloads ps ++ (bad ∷ rest)) lg
        ≡ record lg { handled = lg.handled ++ packets ps }
  unfolding read_handler
  read_handler-until [] bad rest lg e left laws carried fails = rw (fails, read_handler, append-nil)
  read_handler-until ((b, m) ∷ ps) bad rest lg e left laws carried fails =
      rw (decode-Carries laws b m carried.0, read_handler)
        (read_handler-until ps bad rest (record lg { handled = lg.handled ++ (m ∷ []) }) e left laws
            carried.1 fails
          ∙ ap (λ hs. record lg { handled = hs }) (append_assoc lg.handled (m ∷ []) (packets ps)))
