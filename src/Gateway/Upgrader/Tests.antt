-- ===== src/Gateway/Upgrader/Tests.antt =====
-- The theorems about the upgrade on a gateway with one client and on small texts.
use fim.Base.{ℕ, ◌≡◌, refl, ◌≢◌, none, some, [], ◌∷◌, arith, ltb, length, external}
use fim.Wire.Buffer.{Bytes}
use fim.Wire.Samples.{small_ids}
use fim.Gateway.Samples.{clients, gateway, socket, gateway-Counted}
use fim.Base.Decimal.{itoa}
use fim.Gateway.Upgrader.Text.{get_ip}
use fim.Gateway.Upgrader.Parameters.{Fields, Token, parse_parameters, on_request}
use fim.Gateway.Upgrader.Connection.{
  Packages, Request, Upgraded, over_limit, upgrade_conn, callbacks, after_callbacks,
}
use fim.Gateway.Upgrader.Refusals.{over_limit-Counted, upgrade_conn_refuses}

-- A version is its own text, a request has no query, and a configuration stays as it is.
abbrev packages : Packages Bytes
packages = record {
  parse = λ uri. some (λ key. []);
  new_version = λ v. some v;
  merge = λ conf def. conf;
  default_size = 4096;
}

abbrev fields : Fields
fields = record {
  device = b'P' ∷ b'C' ∷ [];
  token = b't' ∷ [];
  ping = b'3' ∷ b'0' ∷ [];
  version = b'1' ∷ [];
  addr = [];
}

abbrev token : Token
token = record { username = b'a' ∷ []; device = [] }

itoa_30 : b'3' ∷ b'0' ∷ [] ≡ itoa 30
unfolding itoa
itoa_30 = refl

-- An IPv6 address without a port loses its last group.
get_ip_ipv6 : get_ip (b':' ∷ b':' ∷ b'1' ∷ []) ≡ b':' ∷ []
unfolding get_ip
get_ip_ipv6 = refl

over_limit-Counted_example : over_limit gateway ≡ ltb gateway.conf.max_connections (length clients)
over_limit-Counted_example =
    over_limit-Counted gateway clients gateway-Counted (omega arith) (omega arith)

abbrev request : Request
request = record { uri = []; headers = [] }

abbrev rejected : Upgraded ℕ Bytes
rejected = record { wrote = []; status = some 401; err = some external; enqueued = [] }

rejects : upgrade_conn packages 8 [] [] (some request) gateway [] ≡ some rejected
unfolding upgrade_conn over_limit callbacks on_request parse_parameters after_callbacks
rejects = refl

upgrade_conn_refuses_example : (rejected.err ≢ none) × (rejected.enqueued ≡ [])
upgrade_conn_refuses_example =
    upgrade_conn_refuses packages 8 [] [] (some request) gateway [] rejected rejects
