-- ===== src/Programs.antt =====
-- gateway/main.go, server/main.go and namesrv/client/discover.go: how the two programs put their parts
-- together.
pub mod Wiring
mod Tests
use fim.Base.{
  ℕ, zero, ◌-◌, ◌/◌, min, ap, Bool, Option, none, some, List, [], ◌==◌, if◌then◌else◌, length, drop,
  Error, panic,
}
use fim.Wire.Buffer.{Bytes}
use fim.Wire.Ksuid.{Ksuids}
use fim.Wire.Relay.{RelayPacket}
use fim.Peer.Client.{WsConn}
use fim.Peer.Server.{Server}
use fim.Lgcluster.Cluster.{Cluster, new_cluster}
use fim.Lgcluster.Cluster.Connecting.{ServerEntry}
use fim.Lgcluster.Proxy.{Proxy, new_lg_cluster_proxy}
use fim.Gateway.Hub.{Gateway, HubConf, new_gateway}
use fim.Gateway.Hub
use fim.LgServer.{LgServer, new_lg_server, start_hub}

-- NamingClient and Options, which have no fields. A naming client is a pointer: `none` is nil.
pub data NamingClient : Type 0 where
  naming_client : NamingClient

pub data Options : Type 0 where
  options : Options

unfoldable pub new_naming_client : Options → Option NamingClient × Option Error
new_naming_client opts = (none, none)

-- GetServers, with the servers and the error.
unfoldable pub get_servers : Option NamingClient → List ServerEntry × Option Error
get_servers n = ([], none)

-- What the programs read with viper.
pub record Settings : Type 0 where
  pub id : Bytes
  pub appkey : Bytes
  pub secret : Bytes
  pub listen : Bytes
  pub ssl : Bool

-- The parts of a running gateway. `in_packets` holds what is in the proxy's channel `in`; `started` of the
-- cluster says whether the proxy has been started, which main does not do.
pub record GatewayProgram (K C W G : Type 0) : Type 0 where
  pub gateway : Gateway K C
  pub proxy : Proxy K G
  pub cluster : Cluster K (Server K W)
  pub in_packets : List (RelayPacket K)

-- The configuration that main makes; the fields that it leaves out are zero.
abbrev pub hub_conf : Settings → HubConf
hub_conf st = record {
  jwt_appkey = st.appkey;
  jwt_secret = st.secret;
  listen = st.listen;
  ssl = st.ssl;
  max_connections = 0;
}

module _ {K : Type 0} ⦃ks : Ksuids K⦄ where
  -- Id, with what ksuid.NewRandom gives; `none` is an error.
  unfoldable pub program_id : Settings → Option K → Option K
  program_id st new_random = if length st.id == 0 then new_random else ks.parse st.id

  -- The gateway's main up to the wait for a signal, with the number under peer.Seq; `none` is a panic.
  unfoldable pub gateway_main :
      {C W G : Type 0} ⦃ws : WsConn C⦄ → Settings → Option K → ℕ → Option (GatewayProgram K C W G)
  gateway_main st new_random sequence = elim (program_id st new_random) [
    | none ↦ none
    | some id ↦ elim (new_naming_client options).1 [
      | some _ ↦ none
      | none ↦
          let (g, err) = Hub.start (new_gateway id (hub_conf st) sequence) in
          elim err [
            | some _ ↦ none
            | none ↦ some (record {
              gateway = g;
              proxy = new_lg_cluster_proxy none;
              cluster = new_cluster id;
              in_packets = [];
            })
          ]
    ]
  ]

  -- Main of the logic server; the error of Start is dropped, and Main ends.
  unfoldable pub server_main : {W : Type 0} → Settings → Option K → Option (LgServer K W)
  server_main st new_random = elim (program_id st new_random) [
    | none ↦ none
    | some id ↦ elim (new_naming_client options).1 [
      | some _ ↦ none
      | none ↦ some (start_hub new_lg_server).0
    ]
  ]
