-- ===== src/Gateway/Upgrader/Connection.antt =====
-- gateway/wss/upgrader.go: a new connection, from the test of the limit to its place in the gateway's
-- queue.
use fim.Base.{
  ℕ, ◌+◌, ◌%◌, ◌^◌, Bool, Option, none, some, List, [], ◌∷◌, ◌++◌, ltb, ◌==◌, if◌then◌else◌, length,
  Error, token_invalid, max_client_limit, external, done, fail, panic,
}
use fim.Wire.Buffer.{Bytes}
use fim.Wire.Ksuid.{Ksuids}
use fim.Peer.Client.{ClientAttrs, ClientConf, WsClient, WsConn, new_client}
use fim.Peer.Client
use fim.Gateway.Hub.{Gateway, Packet, connect, push}
use fim.Gateway.Upgrader.Text.{
  write_status_text, write_error_text, service_unavailable_text, over_max_clients,
}
use fim.Gateway.Upgrader.Parameters.{
  Fields, no_fields, Parsed, on_request, on_header, parse_parameters,
}

-- `a > b` on the bit patterns of two int32.
abbrev pub above : ℕ → ℕ → Bool
above a b = ltb ((b + 2 ^ 31) % 2 ^ 32) ((a + 2 ^ 31) % 2 ^ 32)

-- What has become of a connection: the bytes that upgradeConn wrote itself, the status with which it
-- lets ws.Upgrader reject the request, its error, and the packets in `enqueue`.
pub record Upgraded (K C : Type 0) : Type 0 where
  pub wrote : Bytes
  pub status : Option ℕ
  pub err : Option Error
  pub enqueued : List (Packet K C)

-- A request as ws.Upgrader of github.com/gobwas/ws, which is not part of the repository, hands it to
-- the callbacks: the address of the request line to OnRequest, then each further header to OnHeader.
pub record Request : Type 0 where
  pub uri : Bytes
  pub headers : List (Bytes × Bytes)

-- The other parts that are not of the repository: url.Parse with Query, NewVersion, mergo.Merge on
-- the configuration and the default, and ws.DefaultServerReadBufferSize.
pub record Packages (V : Type 0) : Type 0 where
  pub parse : Bytes → Option (Bytes → Bytes)
  pub new_version : Bytes → Option V
  pub merge : ClientConf → ClientConf → ClientConf
  pub default_size : ℕ

abbrev pub on_headers : List (Bytes × Bytes) → Fields → Fields
on_headers [] f = f
on_headers ((key, value) ∷ rest) f = on_headers rest (on_header key value f)

abbrev pub remote_or : Bytes → Bytes → Bytes
remote_or remote_addr addr = if length addr == 0 then remote_addr else addr

-- The status of the rejection that OnBeforeUpgrade returns.
abbrev pub rejection_status : Error → ℕ
rejection_status token_invalid = 401
rejection_status _ = 400

module _ {K C : Type 0} ⦃ks : Ksuids K⦄ ⦃ws : WsConn C⦄ where
  -- The test at the start of upgradeConn.
  unfoldable pub over_limit : Gateway K C → Bool
  over_limit g = above g.client_num (g.conf.max_connections % 2 ^ 32)

module _ {V : Type 0} (pk : Packages V) where
  -- The callbacks one after the other, up to parseParameters in OnBeforeUpgrade; `none` is a panic.
  unfoldable pub callbacks : Bytes → Request → Option (Parsed V)
  callbacks remote_addr req = elim (on_request pk.parse req.uri no_fields) [
    | none ↦ none
    | some f ↦
        let f' = on_headers req.headers f in
        parse_parameters pk.new_version pk.default_size (remote_or remote_addr f'.addr) f'
  ]

module _ {K C V : Type 0} ⦃ks : Ksuids K⦄ ⦃ws : WsConn C⦄ (pk : Packages V) where
  -- registClient, with the identifier that ksuid.NewRandom gives.
  unfoldable pub regist_client :
      K
      → C
      → ClientAttrs
      → ClientConf
      → Gateway K C
      → List (Packet K C)
      → Option Error × List (Packet K C)
  regist_client id conn attrs conf g enqueued =
      elim (Client.start (new_client pk.merge pk.default_size id conn conf attrs)) [
        | fail e _ ↦ (some e, enqueued)
        | panic ↦ (none, enqueued)
        | done _ client ↦ push (connect client) g enqueued
      ]

  -- upgradeConn behind the callbacks: an error rejects the request, and the attributes and the
  -- configuration, which are there without an error, go to registClient.
  unfoldable pub after_callbacks :
      K → C → Gateway K C → List (Packet K C) → Parsed V → Option (Upgraded K C)
  after_callbacks id conn g enqueued p = elim p.err [
    | some e ↦ some (record {
      wrote = [];
      status = some (rejection_status e);
      err = some external;
      enqueued = enqueued;
    })
    | none ↦ elim p.attrs [
      | none ↦ none
      | some attrs ↦ elim p.conf [
        | none ↦ none
        | some conf ↦
            let (err, enqueued') = regist_client id conn attrs.attrs conf g enqueued in
            some (record { wrote = []; status = none; err = err; enqueued = enqueued' })
      ]
    ]
  ]

  -- upgradeConn on a request, which is `none` where ws.Upgrader fails before the callbacks are
  -- through; it is taken to write its answer without an error. `none` as the result is a panic.
  unfoldable pub upgrade_conn :
      K → C → Bytes → Option Request → Gateway K C → List (Packet K C) → Option (Upgraded K C)
  upgrade_conn id conn remote_addr request g enqueued =
      if over_limit g
      then some (record {
        wrote = write_status_text 503 service_unavailable_text ++ write_error_text over_max_clients;
        status = none;
        err = some max_client_limit;
        enqueued = enqueued;
      })
      else elim request [
        | none ↦
            some (record { wrote = []; status = none; err = some external; enqueued = enqueued })
        | some req ↦ elim (callbacks pk remote_addr req) [
          | none ↦ none
          | some p ↦ after_callbacks id conn g enqueued p
        ]
      ]
