-- ===== src/Wire/Sid.antt =====
-- wire/common.go: SID, the 8-byte name of a server: 2 bytes of type, 2 of area, 4 of node.
pub mod Decimal
use fim.Base.{
  ℕ, ◌+◌, ◌-◌, ◌*◌, ◌/◌, ◌%◌, ◌^◌, ap, ite, Bool, true, false, ◌&&◌, ◌||◌, Option, none, some, [],
  ◌∷◌, leb, ◌==◌, if◌then◌else◌, length, take, drop, Error, sid_length_wrong, Act, ◌>>=◌, ◌>>◌,
  return, Writer,
}
use fim.Wire.Buffer.{Bytes, read_full, write}

-- A value or an error, where no reader or writer is at hand.
pub data Result (A : Type 0) : Type 0 where
  ok : A → Result A
  err : Error → Result A

abbrev pub nil_sid : Bytes
nil_sid = 0 ∷ 0 ∷ 0 ∷ 0 ∷ 0 ∷ 0 ∷ 0 ∷ 0 ∷ []

pub parse_sid : Bytes → Result Bytes
parse_sid val = if length val == 8 then ok val else err sid_length_wrong

pub sid_bytes : Bytes → Result Bytes
sid_bytes b = if length b == 8 then ok b else err sid_length_wrong

abbrev node_websocket_gateway : Bytes
node_websocket_gateway = b'W' ∷ b'G' ∷ []

abbrev node_http_gateway : Bytes
node_http_gateway = b'H' ∷ b'G' ∷ []

abbrev pub node_logic_server : Bytes
node_logic_server = b'L' ∷ b'S' ∷ []

-- `s.Type()`: s[0:2].
pub node_type : Bytes → Bytes
node_type s = take 2 s

-- The value of decimal digits; `none` at any other character.
unfoldable pub digits_loop : ℕ → Bytes → Option ℕ
digits_loop acc [] = some acc
digits_loop acc (c ∷ cs) =
    let rest = digits_loop (acc * 10 + (c - b'0')) cs in
    if leb b'0' c && leb c b'9' then rest else none

-- strconv.Atoi of a short text, as the sign and the magnitude; `none` is its error.
unfoldable pub atoi : Bytes → Option (Bool × ℕ)
unfolding digits_loop
atoi [] = none
atoi (c ∷ cs) = if c == b'-' || c == b'+' then signed (c == b'-') cs else signed false (c ∷ cs)
  where
    tag : Bool → Option ℕ → Option (Bool × ℕ)
    tag negative none = none
    tag negative (some n) = some (negative, n)

    signed : Bool → Bytes → Option (Bool × ℕ)
    signed negative [] = none
    signed negative (d ∷ ds) = tag negative (digits_loop 0 (d ∷ ds))

-- `n, _ := strconv.Atoi(text); uint(n)` at a width: a negative number wraps.
abbrev wrap : ℕ → Option (Bool × ℕ) → ℕ
wrap m none = 0
wrap m (some (false, n)) = n % m
wrap m (some (true, n)) = (m - n % m) % m

pub area : Bytes → ℕ
unfolding atoi
area s = wrap (2 ^ 16) (atoi (take 2 (drop 2 s)))

pub node_id : Bytes → ℕ
unfolding atoi
node_id s = wrap (2 ^ 32) (atoi (take 4 (drop 4 s)))

pub decode : Act Bytes Bytes
decode = do buf ← read_full 8; return buf

pub encode : {W : Type 0} ⦃w : Writer W⦄ → Bytes → Act W (Unit {0})
encode s = write s

-- `s.String()`; a Go string is its bytes.
pub to_string : Bytes → Bytes
to_string s = s
