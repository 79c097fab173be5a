-- ===== src/Handler/Forwarding.antt =====
-- Which gateway and which receivers a forwarded message names.
use fim.Base.{◌≡◌, refl, ap₂, some, List, [], ◌∷◌, ◌++◌, suc-eq-zero, length}
use fim.Wire.Ksuid.{Ksuids, KsuidLaws, parse_or_nil}
use fim.Wire.Message.{Message}
use fim.Wire.Relay.{new_empty_relay_message}
use fim.Handler.{MessageHandler, Target, text, ksuid, target_id, target_ids, forward}

module _ {K : Type 0} ⦃ks : Ksuids K⦄ where
  -- An identifier, itself or as its string.
  pub data Named : Target K → K → Type 0 where
    by_id : (k : K) → Named (ksuid k) k
    by_string : (k : K) → Named (text (ks.string k)) k

  pub data AllNamed : List (Target K) → List K → Type 0 where
    none_named : AllNamed [] []
    one_more :
        (t : Target K) (k : K) (ts : List (Target K)) (ids : List K)
        → Named t k
        → AllNamed ts ids
        → AllNamed (t ∷ ts) (k ∷ ids)

  target_id-Named : (t : Target K) (k : K) → KsuidLaws ks → Named t k → target_id t ≡ k
  target_id-Named _ _ laws (by_id k) = refl
  target_id-Named _ _ laws (by_string k) = rw (target_id, parse_or_nil, laws.parse-string k)

  target_ids-AllNamed :
      (ts : List (Target K)) (ids : List K) → KsuidLaws ks → AllNamed ts ids → target_ids ts ≡ ids
  target_ids-AllNamed _ _ laws none_named = refl
  target_ids-AllNamed _ _ laws (one_more t k ts ids named rest) =
      ap₂ ◌∷◌ (target_id-Named t k laws named) (target_ids-AllNamed ts ids laws rest)

  -- A message for at least one receiver, where the gateway and the receivers are given as identifiers
  -- or as their strings: forward gives the Dispatcher one packet for that gateway, with those receivers
  -- in their order and the message, from the handler's own identifier.
  pub forward-AllNamed :
      (gateway receiver : Target K) (gid rid : K) (m : Message) (ts : List (Target K))
      (ids : List K) (h : MessageHandler K)
      → KsuidLaws ks
      → Named gateway gid
      → Named receiver rid
      → AllNamed ts ids
      → forward gateway (some m) (receiver ∷ ts) h
        ≡ some (record h {
          sent =
              h.sent
              ++ ((
                gid,
                record (new_empty_relay_message h.id) { receivers = rid ∷ ids; payload = some m },
              )
                  ∷ []);
        })
  unfolding forward
  forward-AllNamed gateway receiver gid rid m ts ids h laws g r named = rw (
    suc-eq-zero (length ts),
    target_id-Named gateway gid laws g,
    target_id-Named receiver rid laws r,
    target_ids-AllNamed ts ids laws named,
  )
