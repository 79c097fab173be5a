-- ===== src/Programs/Tests.antt =====
-- The gateway's program without an identifier in its configuration, when 5 is the new one.
use fim.Base.{ℕ, ◌<◌, ◌≡◌, refl, ◌⊎◌, false, none, some, List, [], ◌∷◌, length}
use fim.Wire.Buffer.{Bytes}
use fim.Wire.Samples.{small_ids}
use fim.Wire.Relay.{RelayPacket}
use fim.Peer.Samples.{open_conn}
use fim.Gateway.Samples.{socket}
use fim.Gateway.Hub.{new_gateway}
use fim.Gateway.Hub
use fim.LgServer.Samples.{packet}
use fim.Lgcluster.Cluster.{new_cluster}
use fim.Lgcluster.Proxy.{new_lg_cluster_proxy}
use fim.Lgcluster.Proxy.Channel.{send}
use fim.Programs.{Settings, GatewayProgram, hub_conf, program_id, gateway_main, new_naming_client}
use fim.Programs.Wiring.{Uses, ready, sends, gateway_main-isolated}

abbrev settings : Settings
settings = record { id = []; appkey = []; secret = []; listen = b':' ∷ b'8' ∷ []; ssl = false }

settings_new_id : program_id {K = ℕ} settings (some 5) ≡ some 5
unfolding program_id
settings_new_id = refl

abbrev Program : Type 0
Program = GatewayProgram ℕ Bytes Bytes (List (RelayPacket ℕ))

-- The program when main has come to its wait.
abbrev program : Program
program = record {
  gateway = record (new_gateway 5 (hub_conf settings) 1) { state = 1 };
  proxy = new_lg_cluster_proxy none;
  cluster = new_cluster 5;
  in_packets = [];
}

abbrev two_packets : List (RelayPacket ℕ)
two_packets = packet ∷ packet ∷ []

abbrev after_two : Program
after_two = record program { in_packets = two_packets }

gateway_main-program : gateway_main settings (some 5) 1 ≡ some program
unfolding gateway_main program_id new_naming_client Hub.start new_gateway
gateway_main-program = refl

Uses-after_two : Uses program two_packets after_two
unfolding send
Uses-after_two = sends packet (sends packet ready refl) refl

gateway_main-isolated_example :
    (after_two.in_packets ≡ two_packets)
    × ((length two_packets < 100)
        ⊎ ((length two_packets ≡ 100)
            × ((pkt : RelayPacket ℕ) → send pkt after_two.in_packets ≡ none)))
gateway_main-isolated_example =
    gateway_main-isolated settings (some 5) 1 program after_two two_packets gateway_main-program
      Uses-after_two
