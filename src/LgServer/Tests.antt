-- ===== src/LgServer/Tests.antt =====
-- The theorems about the logic server with concrete gateways and packets.
use fim.Base.{
  ℕ, ◌≡◌, refl, some, List, [], ◌∷◌, ◌++◌, arith, ℕ_discrete, All, handshake_failed, done, fail,
}
use fim.Base.GoMap.{lookup, insert, Distinct}
use fim.Wire.Buffer.{Bytes, IsByte, buffer}
use fim.Wire.Samples.{small_ids, small_ids-KsuidLaws}
use fim.Peer.Handshake.{HandshakeReq, connect_server}
use fim.LgServer.{accept, gateway_connected}
use fim.Wire.Relay
use fim.Wire.Relay.RoundTrip.{layout, decode-Carries, layout-Carries}
use fim.Wire.Uint.{put_uint}
use fim.Wire.Relay.WellFormed.{IsWellFormed, decode-IsWellFormed}
use fim.Peer.Server.{Server}
use fim.LgServer.Gateways.{
  GatewayEvent, connected, disconnected, gateway_handler, last_event, gateway_handler-last_event,
}
use fim.LgServer.Accepting.{registered, accept_duplicate}
use fim.LgServer.Samples.{old_gateway, gateways, lg, packet, chat_message, packet-IsSendable}

abbrev request : HandshakeReq ℕ
request = record { sid = 5; meta = b'g' ∷ [] }

old_gateway_found : lookup small_ids.same 5 gateways ≡ some old_gateway
unfolding lookup ℕ_discrete
old_gateway_found = refl

accept_duplicate_example :
    (to_lg reply : Bytes) × (connect_server request.sid request.meta
        (record { incoming = reply ++ (6 ∷ []); out = [] })
      ≡ fail handshake_failed (record { incoming = 6 ∷ []; out = to_lg }))
    × (accept (9 ∷ []) (record { incoming = to_lg ++ (7 ∷ []); out = [] }) lg
        ≡ some (registered request (9 ∷ []) reply))
    × (gateway_connected (registered request (9 ∷ []) reply) lg
        ≡ some (record lg {
          gateways =
              some (insert small_ids.same request.sid (registered request (9 ∷ []) reply) gateways);
        }))
accept_duplicate_example =
    accept_duplicate lg old_gateway request gateways (9 ∷ []) (6 ∷ []) (7 ∷ []) small_ids-KsuidLaws
      (omega arith) refl old_gateway_found

layout-packet-IsByte : All IsByte (layout {K = ℕ} packet chat_message [])
unfolding put_uint
layout-packet-IsByte = ground arith

decode-IsWellFormed_example :
    IsWellFormed packet
    × ((out : Bytes) × (Relay.bytes packet ≡ some out)
        × (Relay.decode (out ++ (1 ∷ [])) ≡ done packet (1 ∷ [])))
decode-IsWellFormed_example =
    decode-IsWellFormed ℕ (layout packet chat_message []) packet [] (1 ∷ []) small_ids-KsuidLaws
      layout-packet-IsByte
      (decode-Carries small_ids-KsuidLaws (layout packet chat_message []) packet
        (layout-Carries packet chat_message packet-IsSendable))

abbrev new_connection : Server ℕ Bytes
new_connection = record old_gateway { addr = 9 ∷ [] }

-- A second connection under the identifier 5, then the end of the first one.
abbrev moves : List (GatewayEvent ℕ Bytes)
moves = connected new_connection ∷ disconnected old_gateway ∷ []

gateway_handler-last_event_example :
    (m' : List (ℕ × Server ℕ Bytes)) × Distinct small_ids.same m'
    × (gateway_handler moves lg ≡ some (record lg { gateways = some m' }))
    × ((k : ℕ) → lookup small_ids.same k m' ≡ last_event moves k (lookup small_ids.same k gateways))
gateway_handler-last_event_example =
    gateway_handler-last_event moves lg gateways
      (record { there = refl; distinct = (unfold lookup in refl, tt) })
