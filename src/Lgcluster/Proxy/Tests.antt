-- ===== src/Lgcluster/Proxy/Tests.antt =====
-- The theorem about the proxy's receiver on a packet and a payload that cannot be decoded.
use fim.Base.{ℕ, ◌≡◌, refl, none, some, List, [], ◌∷◌, ◌++◌, arith, All, eof, fail}
use fim.Wire.Buffer.{Bytes, read_full}
use fim.Wire.Common.{read_fixed_bytes}
use fim.Wire.Ksuid.{decode_ksuid}
use fim.Wire.Uint.{uint}
use fim.Wire.Header.{get_payload_len}
use fim.Wire.Message.{Message}
use fim.Wire.Relay.{RelayPacket}
use fim.Wire.Relay
use fim.Wire.Relay.RoundTrip.{IsSendable, Carries, decode-relay_bytes}
use fim.Wire.Samples.{small_ids, small_ids-KsuidLaws}
use fim.Lgcluster.Proxy.{new_lg_cluster_proxy, set_receiver, handle_logic_server_msg}
use fim.Lgcluster.Proxy.Receiving.{
  Item, IsItem, payloads, packets, keep, handle_logic_server_msg-set_receiver,
}

abbrev push_message : Message
push_message = record { header = 0x13 ∷ 0 ∷ 1 ∷ 0 ∷ 0 ∷ 0 ∷ 1 ∷ 0 ∷ 0 ∷ 0 ∷ []; payload = 1 ∷ [] }

abbrev packet : RelayPacket ℕ
packet = record {
  uuid = 3;
  username = [];
  device = 0;
  location = 4;
  receivers = 8 ∷ [];
  payload = some push_message;
}

packet-IsSendable : IsSendable packet push_message
unfolding get_payload_len uint
packet-IsSendable = record {
  has_payload = refl;
  framed = record { header = refl; counted = refl };
  username_fits = omega arith;
  receivers_fit = omega arith;
}

abbrev packet_bytes : Bytes
packet_bytes = (decode-relay_bytes packet push_message [] small_ids-KsuidLaws packet-IsSendable).0

packet_bytes-Carries : Carries packet_bytes packet
packet_bytes-Carries = record {
  message = push_message;
  sendable = packet-IsSendable;
  written = (decode-relay_bytes packet push_message [] small_ids-KsuidLaws packet-IsSendable).1;
}

nothing_left : Relay.decode {K = ℕ} [] ≡ fail eof []
unfolding Relay.decode decode_ksuid read_fixed_bytes read_full
nothing_left = refl

abbrev items : List (Item ℕ)
items = (packet_bytes, some packet) ∷ ([], none) ∷ (packet_bytes, some packet) ∷ []

items-IsItem : All IsItem items
items-IsItem = (packet_bytes-Carries, ((eof, [], nothing_left), (packet_bytes-Carries, tt)))

abbrev nothing_yet : List (RelayPacket ℕ)
nothing_yet = []

handle_logic_server_msg-set_receiver_example :
    (handle_logic_server_msg {K = ℕ} (payloads items) (new_lg_cluster_proxy (some keep)) nothing_yet
      ≡ some nothing_yet)
    × (handle_logic_server_msg {K = ℕ}
          (payloads items)
          (set_receiver keep (new_lg_cluster_proxy (some keep)))
          nothing_yet
        ≡ some (nothing_yet ++ packets items))
handle_logic_server_msg-set_receiver_example =
    handle_logic_server_msg-set_receiver items nothing_yet small_ids-KsuidLaws items-IsItem
