-- ===== src/Gateway/Upgrader/Laws.antt =====
-- What the upgrade of a connection makes of its parameters.
use fim.Base.{
  ℕ, ◌≡◌, Bool, ◌||◌, Option, none, some, arith, ◌==◌, if◌then◌else◌, length, token_invalid,
  parameters_empty,
}
use fim.Wire.Buffer.{Bytes}
use fim.Gateway.Upgrader.Parameters.{Fields, refused, parse_token, after_token, parse_parameters}

module _ {V : Type 0} (new_version : Bytes → Option V) (default_size : ℕ) where
  is_empty : Bytes → Bool
  is_empty b = length b == 0

  -- What parseParameters does with every request, on all its branches: without a token it returns
  -- ErrTokenInvalid, without a device or a ping the error of empty parameters, and with all three of
  -- them it panics, whatever they are, since parseToken gives no token.
  pub parse_parameters_panics :
      (r_addr : Bytes) (f : Fields)
      → parse_parameters new_version default_size r_addr f ≡ (
          if length f.token == 0
          then some (refused token_invalid)
          else if (length f.device == 0) || (length f.ping == 0)
          then some (refused parameters_empty)
          else none)
  unfolding parse_parameters parse_token after_token
  parse_parameters_panics r_addr f = ground arith
