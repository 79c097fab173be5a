-- ===== src/Gateway/Hub/Tests.antt =====
-- The theorems about the gateway's handlers on a gateway with one client.
use fim.Base.{ℕ, ◌+◌, ◌<◌, ◌≡◌, refl, none, some, List, [], ◌∷◌, arith, ℕ_discrete}
use fim.Base.GoMap.{lookup}
use fim.Wire.Buffer.{Bytes}
use fim.Wire.Ksuid.{parse_or_nil}
use fim.Wire.Entity.{Entity}
use fim.Wire.Header
use fim.Wire.Message.{Message, entity, get_payload_entity}
use fim.Wire.Protocol.{get_empty_message}
use fim.Wire.Pid
use fim.Wire.Relay.{RelayPacket}
use fim.Wire.Samples.{small_ids, kick_format, kick_7}
use fim.Gateway.Hub.{Packet, connect, disconnect, msg_relay}
use fim.Gateway.Hub.Counting.{Keeps}
use fim.Gateway.Samples.{client, clients, gateway, socket, socket-NoPanic, gateway-Counted}
use fim.Gateway.Hub.Registry.{hits, apply, drift, registered}
use fim.Gateway.Hub.Refinement.{handle_all, replay, total_drift, handle_all-refines}

client_8_missing : lookup small_ids.same 8 clients ≡ none
unfolding lookup ℕ_discrete
client_8_missing = refl

client_7_there : lookup small_ids.same (parse_or_nil kick_7.peer_id) clients ≡ some (client 7)
unfolding lookup ℕ_discrete
client_7_there = refl

-- The kick-out of the client 7, which is its receiver.
abbrev kick_message : Message
kick_message = record {
  header = Pid.kick_out ∷ 0 ∷ 1 ∷ 0 ∷ 0 ∷ 0 ∷ 20 ∷ 0 ∷ 0 ∷ 0 ∷ [];
  payload = kick_7.peer_id;
}

abbrev kick_packet : RelayPacket ℕ
kick_packet = record {
  uuid = 0;
  username = [];
  device = 0;
  location = 0;
  receivers = 7 ∷ [];
  payload = some kick_message;
}

kick_message_pid : Header.get_pid kick_message.header ≡ Pid.kick_out
unfolding Header.get_pid
kick_message_pid = refl

kick_packet_hits : 0 < hits (registered clients) kick_packet.receivers
unfolding lookup ℕ_discrete
kick_packet_hits = omega arith

kick_message_entity : get_payload_entity kick_format kick_message ≡ entity (Entity.kick_out kick_7)
unfolding get_payload_entity get_empty_message Header.get_pid
kick_message_entity = refl

-- The client 8 connects twice, the client 7 is kicked out and disconnects.
abbrev packets : List (Packet ℕ Bytes)
packets =
    connect (client 8) ∷ connect (client 8) ∷ msg_relay kick_packet ∷ disconnect (client 7) ∷ []

packets_drift : total_drift kick_format packets (registered clients) ≡ 2
unfolding drift apply lookup get_payload_entity get_empty_message Header.get_pid ℕ_discrete
packets_drift = refl

handle_all-refines_example :
    Keeps
      (replay kick_format packets (registered clients))
      (0 + total_drift kick_format packets (registered clients))
      (handle_all kick_format packets gateway)
handle_all-refines_example =
    handle_all-refines 0 kick_format packets gateway clients socket-NoPanic gateway-Counted
      (tt, (tt, ((kick_message, refl, λ _. (kick_7, kick_message_entity)), (tt, tt))))
