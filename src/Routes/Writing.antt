-- ===== src/Routes/Writing.antt =====
-- What a logic server writes to one of its gateways.
use fim.Base.{
  some_path, ◌≡◌, refl, sym, ap, subst, ◌∙◌, ◌≢◌, inl, inr, ite, if_pos, if_neg, none, some, List,
  [], ◌∷◌, ◌++◌, append-nil, append_assoc, Option-cases, All,
}
use fim.Base.GoMap.{lookup, insert, lookup-insert_self, lookup-insert_ne}
use fim.Wire.Buffer.{Bytes}
use fim.Wire.Ksuid.{Ksuids, KsuidLaws}
use fim.Wire.Relay.{RelayPacket}
use fim.Peer.OpCode
use fim.Peer.Frame.RoundTrip.{frame_bytes}
use fim.Peer.Stream.{NetConn}
use fim.Peer.Stream.Delivery.{stream}
use fim.Peer.Server.{Server, server_started}
use fim.Peer.Server.Delivery.{IsOpen, messages, push-frame, push-connected}
use fim.LgServer.{LgServer, gateway, write_message}
use fim.LgServer.Gateways.{write_handler}
use fim.Routes.Link.{IsOutgoing, relay_bytes, all_bytes, encode-relay_bytes, relay_bytes-IsShort}
use fim.Routes.Sending.{written}

module _ {K : Type 0} ⦃ks : Ksuids K⦄ where
  -- The messages for one server.
  abbrev pub messages_to : K → List (K × RelayPacket K) → List (RelayPacket K)
  messages_to k [] = []
  messages_to k ((i, m) ∷ ms) = let rest = messages_to k ms in ite (ks.same k i) (m ∷ rest) rest

  -- Messages whose packets fit a frame, for whatever server.
  abbrev pub AreOutgoing : List (K × RelayPacket K) → Type 0
  AreOutgoing ms = All (λ (e : K × RelayPacket K). IsOutgoing e.1) ms

  pub messages_to-IsOutgoing :
      (k : K) (ms : List (K × RelayPacket K)) → AreOutgoing ms → All IsOutgoing (messages_to k ms)
  messages_to-IsOutgoing k [] os = tt
  messages_to-IsOutgoing k ((i, m) ∷ ms) (o, os) = elim (ks.same k i) [
    | yes e ↦ rw (if_pos _ e) (o, messages_to-IsOutgoing k ms os)
    | no n ↦ rw (if_neg _ n) (messages_to-IsOutgoing k ms os)
  ]

  -- Every gateway of the map has a connection.
  abbrev pub AreConnected : List (K × Server K Bytes) → Type 0
  AreConnected gs =
      (i : K) (s : Server K Bytes) → lookup ks.same i gs ≡ some s → (w : Bytes) × (s.conn ≡ some w)

  AreConnected-insert :
      (i : K) (s : Server K Bytes) (w : Bytes) (gs : List (K × Server K Bytes))
      → s.conn ≡ some w
      → AreConnected gs
      → AreConnected (insert ks.same i s gs)
  AreConnected-insert i s w gs has all j t e = elim (ks.same i j) [
    | yes same ↦
        let found : lookup ks.same j (insert ks.same i s gs) ≡ some s =
          subst (λ x. lookup ks.same x (insert ks.same i s gs) ≡ some s) same
            (lookup-insert_self ks.same i s gs) in
        let st : s ≡ t = some_path (sym found ∙ e) in (w, ap (λ x. x.conn) (sym st) ∙ has)
    | no other ↦ all j t (sym (lookup-insert_ne ks.same i j s gs other) ∙ e)
  ]

module _ {K : Type 0} ⦃ks : Ksuids K⦄ ⦃c : NetConn Bytes⦄ where
  write_message-pushed :
      (k : K) (m : RelayPacket K) (lg : LgServer K Bytes) (gs : List (K × Server K Bytes))
      (s : Server K Bytes) (w : Bytes)
      → IsOpen c
      → KsuidLaws ks
      → lg.gateways ≡ some gs
      → lookup ks.same k gs ≡ some s
      → s.state ≡ server_started
      → s.conn ≡ some w
      → IsOutgoing m
      → write_message k m lg
        ≡ some (record lg {
          gateways = some (
              insert ks.same k
                (record s { conn = some (w ++ frame_bytes OpCode.message (relay_bytes m)) })
                gs);
        })
  unfolding write_message
  write_message-pushed k m lg gs s w is_open laws there known is_started has o =
      rw
        (
          there,
          known,
          encode-relay_bytes m o,
          push-frame is_open (relay_bytes m) w s is_started has (relay_bytes-IsShort laws m o),
          write_message,
        )
        (rw there)

  write_message-unknown :
      (i : K) (m : RelayPacket K) (lg : LgServer K Bytes)
      → gateway i lg ≡ none
      → write_message i m lg ≡ some lg
  unfolding write_message
  write_message-unknown i m lg e = rw (e, write_message)

  gateway-lookup :
      (i : K) (lg : LgServer K Bytes) (gs : List (K × Server K Bytes))
      → lg.gateways ≡ some gs
      → gateway i lg ≡ lookup ks.same i gs
  gateway-lookup i lg gs there = rw (there, gateway)

  -- A message to any gateway with a connection is written or dropped.
  write_message-known :
      (i : K) (m : RelayPacket K) (lg : LgServer K Bytes) (gs : List (K × Server K Bytes))
      (s : Server K Bytes) (w : Bytes)
      → IsOpen c
      → KsuidLaws ks
      → lg.gateways ≡ some gs
      → lookup ks.same i gs ≡ some s
      → s.conn ≡ some w
      → IsOutgoing m
      → (s' : Server K Bytes) × (out : Bytes) × (s'.conn ≡ some out)
        × (write_message i m lg ≡ some (record lg { gateways = some (insert ks.same i s' gs) }))
  unfolding write_message
  write_message-known i m lg gs s w is_open laws there known has o =
      let (s', out, has', pushed) =
        push-connected is_open (relay_bytes m) w s has (relay_bytes-IsShort laws m o) in
      (
        s',
        out,
        has',
        elim pushed [
          | inl e ↦ rw (there, known, encode-relay_bytes m o, e, write_message) (rw there)
          | inr e ↦ rw (there, known, encode-relay_bytes m o, e, write_message) (rw there)
        ],
      )

  -- A message to another gateway leaves `k` as it is, and every gateway connected.
  write_message-other :
      (k i : K) (m : RelayPacket K) (lg : LgServer K Bytes) (gs : List (K × Server K Bytes))
      → IsOpen c
      → KsuidLaws ks
      → lg.gateways ≡ some gs
      → AreConnected gs
      → IsOutgoing m
      → k ≢ i
      → (gs' : List (K × Server K Bytes)) × (write_message i m lg
          ≡ some (record lg { gateways = some gs' }))
        × (lookup ks.same k gs' ≡ lookup ks.same k gs)
        × AreConnected gs'
  write_message-other k i m lg gs is_open laws there all o other =
      elim (Option-cases (lookup ks.same i gs)) [
        | inl e ↦ (
          gs,
          write_message-unknown i m lg (gateway-lookup i lg gs there ∙ e)
              ∙ ap (λ x. some (record lg { gateways = x })) there,
          refl,
          all,
        )
        | inr (s, e) ↦
            let (w, has) = all i s e in
            let (s', out, has', writes) =
              write_message-known i m lg gs s w is_open laws there e has o in
            (
              insert ks.same i s' gs,
              writes,
              lookup-insert_ne ks.same i k s' gs (λ e. other (sym e)),
              AreConnected-insert i s' out gs has' all,
            )
      ]

  pub write_handler-written :
      (k : K) (ms : List (K × RelayPacket K)) (lg : LgServer K Bytes)
      (gs : List (K × Server K Bytes)) (s : Server K Bytes) (w : Bytes)
      → IsOpen c
      → KsuidLaws ks
      → lg.gateways ≡ some gs
      → lookup ks.same k gs ≡ some s
      → s.state ≡ server_started
      → s.conn ≡ some w
      → AreConnected gs
      → AreOutgoing ms
      → (lg' : LgServer K Bytes) × (write_handler ms lg ≡ some lg')
        × (gateway k lg' ≡ some (written (messages_to k ms) w s))
  unfolding write_handler
  write_handler-written k [] lg gs s w is_open laws there known is_started has all os =
      (lg, refl, rw (there, append-nil) (known ∙ ap (λ x. some (record s { conn = x })) has))
  write_handler-written k ((i, m) ∷ ms) lg gs s w is_open laws there known is_started has all
        (o, os) =
      elim (ks.same k i) [
        | yes e ↦
            let f = frame_bytes OpCode.message (relay_bytes m) in
            let s' = record s { conn = some (w ++ f) } in
            let gs' = insert ks.same k s' gs in
            let lg1 = record lg { gateways = some gs' } in
            let (lg', writes, found) =
              write_handler-written k ms lg1 gs' s' (w ++ f) is_open laws refl
                (lookup-insert_self ks.same k s' gs) is_started refl
                (AreConnected-insert k s' (w ++ f) gs refl all) os in
            let one =
              subst (λ j. write_message j m lg ≡ some lg1) e
                (write_message-pushed k m lg gs s w is_open laws there known is_started has o) in
            (
              lg',
              rw (one, write_handler) writes,
              rw (if_pos _ e) (
                  found
                  ∙ ap (λ x. some (record s { conn = some x }))
                      (append_assoc w f (stream (messages (all_bytes (messages_to k ms)))))),
            )
        | no n ↦
            let (gs', one, same, all') =
              write_message-other k i m lg gs is_open laws there all o n in
            rw (one, write_handler, if_neg _ n)
              (write_handler-written k ms (record lg { gateways = some gs' }) gs' s w is_open laws
                refl (same ∙ known) is_started has all' os)
      ]
