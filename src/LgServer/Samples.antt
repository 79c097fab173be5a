-- ===== src/LgServer/Samples.antt =====
-- A logic server with one gateway, and a packet, for tests.
use fim.Base.{ℕ, ◌≡◌, refl, some, List, [], ◌∷◌, arith, eof, fail}
use fim.Wire.Buffer.{Bytes, buffer, read_full}
use fim.Wire.Ksuid.{decode_ksuid}
use fim.Wire.Common.{read_fixed_bytes}
use fim.Wire.Message.{Message}
use fim.Wire.Header.{get_payload_len}
use fim.Wire.Uint.{uint}
use fim.Wire.Relay.{RelayPacket}
use fim.Wire.Relay
use fim.Wire.Relay.RoundTrip.{IsSendable, decode-relay_bytes}
use fim.Wire.Samples.{small_ids, small_ids-KsuidLaws}
use fim.Peer.Server.{Server, new_server}
use fim.LgServer.{LgServer}
use fim.Wire.Relay.RoundTrip.{Carries}

abbrev pub old_gateway : Server ℕ Bytes
old_gateway = new_server 5 []

abbrev pub gateways : List (ℕ × Server ℕ Bytes)
gateways = (5, old_gateway) ∷ []

abbrev pub lg : LgServer ℕ Bytes
lg = record { id = 0; state = 1; gateways = some gateways; lgservers = []; handled = [] }

abbrev pub chat_message : Message
chat_message = record {
  header = 0x11 ∷ 0 ∷ 1 ∷ 0 ∷ 0 ∷ 0 ∷ 2 ∷ 0 ∷ 0 ∷ 0 ∷ [];
  payload = 1 ∷ 2 ∷ [];
}

abbrev pub packet : RelayPacket ℕ
packet = record {
  uuid = 3;
  username = b'j' ∷ b'o' ∷ [];
  device = 2;
  location = 4;
  receivers = [];
  payload = some chat_message;
}

pub packet-IsSendable : IsSendable packet chat_message
unfolding get_payload_len uint
packet-IsSendable = record {
  has_payload = refl;
  framed = record { header = refl; counted = refl };
  username_fits = omega arith;
  receivers_fit = omega arith;
}

abbrev pub packet_bytes : Bytes
packet_bytes = (decode-relay_bytes packet chat_message [] small_ids-KsuidLaws packet-IsSendable).0

pub packet_bytes-Carries : Carries packet_bytes packet
packet_bytes-Carries = record {
  message = chat_message;
  sendable = packet-IsSendable;
  written = (decode-relay_bytes packet chat_message [] small_ids-KsuidLaws packet-IsSendable).1;
}

pub nothing_left : Relay.decode {K = ℕ} [] ≡ fail eof []
unfolding Relay.decode decode_ksuid read_fixed_bytes read_full
nothing_left = refl
