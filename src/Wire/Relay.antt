-- ===== src/Wire/Relay.antt =====
-- wire/message.go: RelayPacket, what gateways and logic servers exchange: who sent a message, and
-- who is to receive it.
pub mod RoundTrip
pub mod WellFormed
use fim.Base.{
  ℕ, zero, suc, ◌%◌, ◌^◌, ◌≡◌, List, [], ◌∷◌, ◌++◌, length, Act, Outcome, done, fail, panic, ◌>>=◌,
  ◌>>◌, return, or_default, Writer, Option, none, some,
}
use fim.Wire.Buffer.{Bytes, write, buffer}
use fim.Wire.Ksuid.{Ksuids, decode_ksuid}
use fim.Wire.Common.{read_uint8, read_uint32, read_string, write_uint8, write_uint32, write_string}
use fim.Wire.Message.{Message}
use fim.Wire.Message

-- The payload is a pointer: `none` is nil.
pub record RelayPacket (K : Type 0) : Type 0 where
  pub uuid : K
  pub username : Bytes
  pub device : ℕ
  pub location : K
  pub receivers : List K
  pub payload : Option Message

-- Encode of a nil payload dereferences it.
encode_payload : {W : Type 0} ⦃w : Writer W⦄ → Option Message → Act W (Unit {0})
encode_payload none s = panic
encode_payload (some m) s = Message.encode m s

module _ {K : Type 0} ⦃ks : Ksuids K⦄ where
  -- The zero value of a KSUID is ksuid.Nil.
  unfoldable pub new_empty_relay_message : K → RelayPacket K
  new_empty_relay_message location = record {
    uuid = ks.nil;
    username = [];
    device = 0;
    location = location;
    receivers = [];
    payload = none;
  }

  unfoldable pub new_relay_message : K → Bytes → ℕ → K → RelayPacket K
  new_relay_message uuid username device location = record {
    uuid = uuid;
    username = username;
    device = device;
    location = location;
    receivers = [];
    payload = none;
  }

  -- The loop over the receivers: an error of DecodeKSUID is dropped, and leaves ksuid.Nil.
  unfoldable pub decode_receivers : ℕ → Act Bytes (List K)
  decode_receivers zero = return []
  decode_receivers (suc n) = do
    recv ← (λ s. or_default ks.nil (decode_ksuid s))
    rest ← decode_receivers n
    return (recv ∷ rest)

  unfoldable pub decode : Act Bytes (RelayPacket K)
  unfolding decode_receivers
  decode = do
    uuid ← decode_ksuid
    username ← read_string
    device ← read_uint8
    location ← decode_ksuid
    len ← read_uint32
    receivers ← decode_receivers len
    payload ← Message.decode Message.empty
    return (record {
      uuid = uuid;
      username = username;
      device = device;
      location = location;
      receivers = receivers;
      payload = some payload;
    })

  module _ {W : Type 0} ⦃w : Writer W⦄ where
    unfoldable pub encode_receivers : List K → Act W (Unit {0})
    encode_receivers [] = return tt
    encode_receivers (recv ∷ rest) = do write (ks.bytes recv); encode_receivers rest

    unfoldable pub encode : RelayPacket K → Act W (Unit {0})
    unfolding encode_receivers encode_payload
    encode m = do
      write (ks.bytes m.uuid)
      write_string m.username
      write_uint8 m.device
      write (ks.bytes m.location)
      write_uint32 (length m.receivers % 2 ^ 32)
      encode_receivers m.receivers
      encode_payload m.payload

  -- `m.Bytes()`; `none` is a panic.
  pub bytes : RelayPacket K → Option Bytes
  bytes m = elim (encode m []) [ done _ s ↦ some s | fail _ s ↦ some s | panic ↦ none ]
