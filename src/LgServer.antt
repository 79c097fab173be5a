-- ===== src/LgServer.antt =====
-- server/hub/hub.go: LgServer, a logic server: the gateways that are connected to it, what it reads
-- from them and what it writes to them.
pub mod Samples
pub mod Accepting
pub mod Reading
pub mod Gateways
mod Tests
use fim.Base.{
  ℕ, ◌+◌, ◌-◌, ◌/◌, ap, ite, not, Option, none, some, List, [], ◌∷◌, ◌++◌, map, ◌==◌, if◌then◌else◌,
  drop, Error, hub_started, done, fail, panic, return, Writer,
}
use fim.Base.GoMap.{lookup, insert, delete}
use fim.Wire.Buffer.{Bytes, buffer}
use fim.Wire.Ksuid.{Ksuids}
use fim.Wire.Relay.{RelayPacket}
use fim.Wire.Relay
use fim.Peer.Handshake.{
  HandshakeReq, Conn, upgrade, code_handshake_ok, code_handshake_duplicated_sid,
}
use fim.Peer.Stream.{NetConn, conn_writer}
use fim.Peer.Server.{Server, side_server, new_server, start, push}
use fim.Peer.Server

abbrev pub closed : ℕ
closed = 0

abbrev pub started : ℕ
started = 1

abbrev pub closing : ℕ
closing = 2

-- `gateways` is none when the map is nil. `lgservers` is never assigned. `handled` holds what the
-- protocol handler has been sent.
pub record LgServer (K W : Type 0) : Type 0 where
  pub id : K
  pub state : ℕ
  pub gateways : Option (List (K × Server K W))
  pub lgservers : List (K × Server K W)
  pub handled : List (RelayPacket K)

-- "server existed"
abbrev pub existed : Bytes
existed =
    b's' ∷ b'e' ∷ b'r' ∷ b'v' ∷ b'e' ∷ b'r' ∷ b' ' ∷ b'e' ∷ b'x' ∷ b'i' ∷ b's' ∷ b't' ∷ b'e' ∷ b'd'
    ∷ []

module _ {K W : Type 0} ⦃ks : Ksuids K⦄ where
  -- NewLgServer. The identifier that it is given goes to the handler and the log only.
  unfoldable pub new_lg_server : LgServer K W
  new_lg_server = record {
    id = ks.nil;
    state = closed;
    gateways = some [];
    lgservers = [];
    handled = [];
  }

  -- Start up to the goroutines that it starts, and whether it returns ErrHubStarted.
  unfoldable pub start_hub : LgServer K W → LgServer K W × Option Error
  start_hub lg =
      if lg.state == closed then (record lg { state = started }, none) else (lg, some hub_started)

  -- To, which does nothing yet with a packet for a gateway.
  pub to_gateway : K → RelayPacket K → LgServer K W → LgServer K W
  to_gateway server_id pkg lg = lg

  abbrev pub gateway : K → LgServer K W → Option (Server K W)
  gateway k lg = elim lg.gateways [ none ↦ none | some m ↦ lookup ks.same k m ]

  -- The callback of the handshake.
  unfoldable pub on_handshake : LgServer K W → HandshakeReq K → ℕ × Option Bytes
  on_handshake lg req = elim (gateway req.sid lg) [
    | some _ ↦ (code_handshake_duplicated_sid, some existed)
    | none ↦ elim (lookup ks.same req.sid lg.lgservers) [
      | some _ ↦ (code_handshake_duplicated_sid, some existed)
      | none ↦ (code_handshake_ok, none)
    ]
  ]

  -- `lg.gateways[k] = p`; a nil map panics.
  abbrev put_gateway : K → Server K W → LgServer K W → Option (LgServer K W)
  put_gateway k p lg = elim lg.gateways [
    | none ↦ none
    | some m ↦ some (record lg { gateways = some (insert ks.same k p m) })
  ]

  -- The cases of gatewayHandler.
  unfoldable pub gateway_connected : Server K W → LgServer K W → Option (LgServer K W)
  gateway_connected p lg = put_gateway p.id p lg

  unfoldable pub gateway_disconnected : Server K W → LgServer K W → LgServer K W
  gateway_disconnected p lg = record lg {
    gateways = elim lg.gateways [ none ↦ none | some m ↦ some (delete ks.same p.id m) ];
  }

  -- A round of listen behind Accept: the server that goes to `connect`, if one does. Its address is
  -- that of the other end.
  pub accept : ⦃w : Writer W⦄ → (remote : Bytes) → Conn W → LgServer K W → Option (Server K W)
  accept remote conn lg = elim (upgrade (on_handshake lg) conn) [
    | done req conn' ↦
        elim (start (some conn'.out) side_server
          (record (new_server req.sid req.meta) { addr = remote })) [
            | done _ server ↦ some server
            | _ ↦ none
          ]
    | _ ↦ none
  ]

  -- readHandler on the payloads that come: a payload that cannot be decoded ends the loop.
  unfoldable pub read_handler : List Bytes → LgServer K W → LgServer K W
  read_handler [] lg = lg
  read_handler (payload ∷ rest) lg = elim (Relay.decode payload) [
    | done msg _ ↦ read_handler rest (record lg { handled = lg.handled ++ (msg ∷ []) })
    | _ ↦ lg
  ]

  -- A round of writeHandler: a message for a gateway that is not connected is dropped, and so are
  -- errors; a nil payload panics.
  unfoldable pub write_message :
      ⦃c : NetConn W⦄ → K → RelayPacket K → LgServer K W → Option (LgServer K W)
  write_message server_id payload lg = elim (gateway server_id lg) [
    | none ↦ some lg
    | some gw ↦ elim (Relay.encode {W = Bytes} ⦃w = buffer⦄ payload []) [
      | done _ buf ↦ elim (push buf gw) [
        | done _ gw' ↦ put_gateway server_id gw' lg
        | fail _ gw' ↦ put_gateway server_id gw' lg
        | panic ↦ none
      ]
      | fail _ _ ↦ some lg
      | panic ↦ none
    ]
  ]

  close_all : ⦃c : NetConn W⦄ → List (K × Server K W) → List (Server K W)
  close_all [] = []
  close_all ((k, s) ∷ m) = Server.close s ∷ close_all m

  -- Shutdown, with the servers that it has closed; none is ErrHubClosed.
  pub shutdown : ⦃c : NetConn W⦄ → LgServer K W → Option (LgServer K W × List (Server K W))
  unfolding close_all
  shutdown lg =
      if lg.state == started
      then some (
        record lg { gateways = none; state = closed },
        close_all (elim lg.gateways [ none ↦ [] | some m ↦ m ]),
      )
      else none
