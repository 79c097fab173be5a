-- ===== src/Gateway/Samples.antt =====
-- A gateway with one client, on connections that keep what is written, for tests.
use fim.Base.{ℕ, refl, true, false, some, List, [], ◌∷◌, ◌++◌, arith, done}
use fim.Base.GoMap.{lookup}
use fim.Wire.Buffer.{Bytes}
use fim.Wire.Samples.{small_ids}
use fim.Peer.Client.{WsClient, WsConn, def_conf}
use fim.Peer.Client.Identity.{NoPanic}
use fim.Gateway.Hub.{Gateway}
use fim.Gateway.Hub.Counting.{Counted}

instance abbrev pub socket : WsConn Bytes
socket = record {
  write_server_binary = λ p held. done tt (held ++ p);
  write_server_message = λ op p held. done tt (held ++ (op ∷ p));
  set_write_deadline = λ held. done tt held;
  set_read_deadline = λ held. done tt held;
  close = λ held. done tt held;
}

pub socket-NoPanic : NoPanic socket
socket-NoPanic = record { binary = λ p c h. cc; deadline = λ c h. cc }

abbrev pub client : ℕ → WsClient ℕ Bytes
client k = record {
  id = k;
  attrs = record { username = b'a' ∷ []; device = 1; remote_ip = [] };
  conf = def_conf 4096;
  conn = [];
  state = 1;
}

abbrev pub clients : List (ℕ × WsClient ℕ Bytes)
clients = (7, client 7) ∷ []

abbrev pub gateway : Gateway ℕ Bytes
gateway = record {
  id = 0;
  conf = record {
    jwt_appkey = [];
    jwt_secret = [];
    listen = [];
    ssl = false;
    max_connections = 10;
  };
  state = 1;
  clients = some clients;
  client_num = 1;
  has_proxy = true;
  sent = [];
  sequence = 1;
  hung_up = [];
}

pub gateway-Counted : Counted 0 gateway clients
unfolding lookup
gateway-Counted = record {
  running = refl;
  holds = refl;
  distinct = (refl, tt);
  keyed = (refl, tt);
  count = omega arith;
}
