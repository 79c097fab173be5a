-- ===== src/Wire/Protocol/Known.antt =====
-- Which protocols the two tables know.
use fim.Base.{ℕ, ◌≡◌, true, ◌||◌, none, some, arith, ◌==◌}
use fim.Wire.Pid
use fim.Wire.Protocol.{is_protocol, protocol_name, find, get_empty_message}

-- IsProtocol holds for exactly the identifiers that GetEmptyMessage has a message for, and for ping
-- and pong, which carry no payload.
pub is_protocol-get_empty_message :
    (id : ℕ)
    → is_protocol id
      ≡ elim (get_empty_message id) [ none ↦ id == Pid.ping || id == Pid.pong | some _ ↦ true ]
unfolding is_protocol protocol_name find get_empty_message
is_protocol-get_empty_message id = ground arith
