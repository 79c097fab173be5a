-- ===== src/Gateway/Upgrader/Parameters.antt =====
-- gateway/wss/upgrader.go: the parameters of a connection, which its request line and its headers
-- give, and what parseParameters makes of them.
use fim.Base.{
  ℕ, ◌+◌, ◌-◌, ◌*◌, ◌^◌, min, Bool, true, false, ◌&&◌, ◌||◌, Option, none, some, [], ◌∷◌, ltb, leb,
  ◌==◌, if◌then◌else◌, length, Error, token_invalid, parameters_empty, invalid_ping, bad_version,
}
use fim.Wire.Buffer.{Bytes}
use fim.Wire.Sid.{atoi}
use fim.Peer.Client.{ClientAttrs, ClientConf, second}
use fim.Gateway.Upgrader.Text.{same_bytes, is_addr, get_ip}

abbrev key_device : Bytes
key_device = b'D' ∷ b'E' ∷ b'V' ∷ b'I' ∷ b'C' ∷ b'E' ∷ []

abbrev key_token : Bytes
key_token = b'T' ∷ b'O' ∷ b'K' ∷ b'E' ∷ b'N' ∷ []

abbrev key_ping : Bytes
key_ping = b'P' ∷ b'I' ∷ b'N' ∷ b'G' ∷ []

abbrev key_version : Bytes
key_version = b'V' ∷ b'E' ∷ b'R' ∷ b'S' ∷ b'I' ∷ b'O' ∷ b'N' ∷ []

abbrev device_phone : Bytes
device_phone = b'P' ∷ b'H' ∷ b'O' ∷ b'N' ∷ b'E' ∷ []

abbrev device_pad : Bytes
device_pad = b'P' ∷ b'A' ∷ b'D' ∷ []

abbrev device_pc : Bytes
device_pc = b'P' ∷ b'C' ∷ []

abbrev device_web : Bytes
device_web = b'W' ∷ b'E' ∷ b'B' ∷ []

abbrev device_backend : Bytes
device_backend = b'B' ∷ b'A' ∷ b'C' ∷ b'K' ∷ b'E' ∷ b'N' ∷ b'D' ∷ []

abbrev pub query_device : Bytes
query_device = b'd' ∷ b'e' ∷ b'v' ∷ b'i' ∷ b'c' ∷ b'e' ∷ []

abbrev pub query_token : Bytes
query_token = b't' ∷ b'o' ∷ b'k' ∷ b'e' ∷ b'n' ∷ []

abbrev pub query_ping : Bytes
query_ping = b'p' ∷ b'i' ∷ b'n' ∷ b'g' ∷ []

abbrev pub query_version : Bytes
query_version = b'v' ∷ b'e' ∷ b'r' ∷ b's' ∷ b'i' ∷ b'o' ∷ b'n' ∷ []

abbrev upper_byte : ℕ → ℕ
upper_byte c = if leb b'a' c && leb c b'z' then c - 32 else c

-- strings.ToUpper, for a comparison with ASCII text: of the characters beyond ASCII only the dotless
-- i (0xC4 0xB1) and the long s (0xC5 0xBF) have an ASCII letter as their upper case.
unfoldable pub to_upper : Bytes → Bytes
to_upper [] = []
to_upper (c ∷ []) = upper_byte c ∷ []
to_upper (c ∷ d ∷ cs) = elim ((c == 0xC4) && (d == 0xB1)) [
  | true ↦ b'I' ∷ to_upper cs
  | false ↦ elim ((c == 0xC5) && (d == 0xBF)) [
    | true ↦ b'S' ∷ to_upper cs
    | false ↦ upper_byte c ∷ to_upper (d ∷ cs)
  ]
]

-- The variables de, tk, pi, ve and addr of upgradeConn.
pub record Fields : Type 0 where
  pub device : Bytes
  pub token : Bytes
  pub ping : Bytes
  pub version : Bytes
  pub addr : Bytes

abbrev pub no_fields : Fields
no_fields = record { device = []; token = []; ping = []; version = []; addr = [] }

abbrev put : Bytes → Bytes → Fields → Fields
put key value f =
    if same_bytes key key_device
    then record f { device = value }
    else if same_bytes key key_token
    then record f { token = value }
    else if same_bytes key key_ping
    then record f { ping = value }
    else if same_bytes key key_version
    then record f { version = value }
    else f

unfoldable pub set_field : Bytes → Bytes → Fields → Fields
unfolding to_upper same_bytes
set_field key value f = put (to_upper key) value f

-- net/url's Parse and Query().Get on a request line's address; `none` is an error of Parse, which is
-- thrown away and leaves a nil URL, so that Query panics.
unfoldable pub on_request : (Bytes → Option (Bytes → Bytes)) → Bytes → Fields → Option Fields
unfolding set_field
on_request parse uri f = elim (parse uri) [
  | none ↦ none
  | some q ↦ some (
      if length (q query_token) == 0
      then f
      else set_field query_version (q query_version) (
          set_field query_ping (q query_ping)
            (set_field query_token (q query_token) (set_field query_device (q query_device) f))))
]

unfoldable pub on_header : Bytes → Bytes → Fields → Fields
unfolding set_field is_addr
on_header key value f =
    let f' = set_field key value f in if is_addr key then record f' { addr = value } else f'

-- wire.DeviceType_value, which gives 0 for a key that it does not have, and the conversion to uint8.
unfoldable pub device_type : Bytes → ℕ
unfolding same_bytes
device_type de =
    if same_bytes de device_phone
    then 0
    else if same_bytes de device_pad
    then 1
    else if same_bytes de device_pc
    then 2
    else if same_bytes de device_web
    then 3
    else if same_bytes de device_backend
    then 4
    else 0

pub record Token : Type 0 where
  pub username : Bytes
  pub device : Bytes

-- parseToken, which gives a nil token and a nil error.
unfoldable pub parse_token : Bytes → Option Token × Option Error
parse_token tk = (none, none)

-- The attributes with their version, which is nil where NewVersion fails.
pub record Attrs (V : Type 0) : Type 0 where
  pub attrs : ClientAttrs
  pub version : Option V

-- The three results of parseParameters.
pub record Parsed (V : Type 0) : Type 0 where
  pub attrs : Option (Attrs V)
  pub conf : Option ClientConf
  pub err : Option Error

abbrev pub refused : {V : Type 0} → Error → Parsed V
refused e = record { attrs = none; conf = none; err = some e }

-- The `ping` that `ping, _ := strconv.Atoi(pi)` gives: 0 for text that is no number, and the largest
-- or the smallest int for a number that does not fit, as a sign and a magnitude.
unfoldable pub atoi_ping : Bytes → Bool × ℕ
atoi_ping pi = elim (atoi pi) [
  | none ↦ (false, 0)
  | some (true, n) ↦ (true, min n (2 ^ 63))
  | some (false, n) ↦ (false, min n (2 ^ 63 - 1))
]

-- `ping < 20 || ping > 120`
abbrev pub ping_out_of_range : Bool × ℕ → Bool
ping_out_of_range (true, n) = true
ping_out_of_range (false, n) = ltb n 20 || ltb 120 n

-- The configuration; its Rate stays 0.
abbrev pub ping_conf : ℕ → ℕ → ClientConf
ping_conf default_size ping = record {
  pong_wait = ping * 2 * second + second * 5;
  remote_ping = true;
  reader_buffer_size = default_size;
  rate = 0;
}

-- NewVersion of github.com/hashicorp/go-version, which is not part of the repository, and the size
-- ws.DefaultServerReadBufferSize, which DefConf holds, are parameters.
module _ {V : Type 0} (new_version : Bytes → Option V) (default_size : ℕ) where
  abbrev version_error : Option V → Option Error
  version_error none = some bad_version
  version_error (some v) = none

  -- parseParameters from the test of `de` and `pi` on; a nil token panics. The error of NewVersion is
  -- what the last, bare return gives.
  unfoldable pub after_token : Option Token → Bytes → Fields → Option (Parsed V)
  unfolding device_type get_ip atoi_ping
  after_token jwt r_addr f =
      if (length f.device == 0) || (length f.ping == 0)
      then some (refused parameters_empty)
      else elim jwt [
        | none ↦ none
        | some t ↦
            if ping_out_of_range (atoi_ping f.ping)
            then some (refused invalid_ping)
            else some (record {
              attrs = some (record {
                attrs = record {
                  username = t.username;
                  device = device_type f.device;
                  remote_ip = get_ip r_addr;
                };
                version = new_version f.version;
              });
              conf = some (ping_conf default_size (atoi_ping f.ping).1);
              err = version_error (new_version f.version);
            })
      ]

  -- parseParameters; `none` is a panic.
  unfoldable pub parse_parameters : Bytes → Fields → Option (Parsed V)
  unfolding parse_token after_token
  parse_parameters r_addr f =
      if length f.token == 0
      then some (refused token_invalid)
      else let (jwt, err) = parse_token f.token in
        elim err [ some _ ↦ some (refused token_invalid) | none ↦ after_token jwt r_addr f ]
