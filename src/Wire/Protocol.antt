-- ===== src/Wire/Protocol.antt =====
-- wire/message.go: the map of known protocols, and the empty payload of each.
pub mod Known
use Prim.Native.String.{String}
use fim.Base.{ℕ, List, [], ◌∷◌, Bool, Option, none, some, true, false, ◌||◌, ◌==◌, if◌then◌else◌}
use fim.Wire.Pid

-- The literal of the Go map; its keys are distinct.
abbrev pub protocol_map : List (ℕ × String)
protocol_map =
    (Pid.login, "Login")
    ∷ (Pid.login_ack, "LoginACK")
    ∷ (Pid.kick_out, "KickOut")
    ∷ (Pid.logout, "Logout")
    ∷ (Pid.ping, "Ping")
    ∷ (Pid.pong, "Pong")
    ∷ (Pid.chat, "Chat")
    ∷ (Pid.chat_ack, "ChatAck")
    ∷ (Pid.chat_push, "ChatPush")
    ∷ (Pid.chat_push_ack, "PushAck")
    ∷ (Pid.chat_sync, "ChatSync")
    ∷ (Pid.chat_group, "ChatGroupReq")
    ∷ (Pid.chat_group_ack, "ChatGroupAck")
    ∷ (Pid.chat_group_push, "ChatGroupPush")
    ∷ (Pid.chat_group_push_ack, "ChatGroupPushAck")
    ∷ []

unfoldable pub find : ℕ → List (ℕ × String) → Option String
find id [] = none
find id ((p, name) ∷ rest) = if p == id then some name else find id rest

unfoldable pub protocol_name : ℕ → Option String
unfolding find
protocol_name id = find id protocol_map

-- IsProtocol
pub is_protocol : ℕ → Bool
unfolding protocol_name
is_protocol id = elim (protocol_name id) [ none ↦ false | some _ ↦ true ]

-- The message types that GetEmptyMessage makes.
pub data Kind : Type 0 where
  login_req login_ack kick_out logout_req chat_req chat_ack chat_push chat_push_ack chat_sync : Kind

-- GetEmptyMessage; `none` is ErrPIDNoFound.
unfoldable pub get_empty_message : ℕ → Option Kind
get_empty_message protocol_id =
    if protocol_id == Pid.login
    then some login_req
    else if protocol_id == Pid.login_ack
    then some login_ack
    else if protocol_id == Pid.kick_out
    then some kick_out
    else if protocol_id == Pid.logout
    then some logout_req
    else if protocol_id == Pid.chat_group || protocol_id == Pid.chat
    then some chat_req
    else if protocol_id == Pid.chat_group_ack || protocol_id == Pid.chat_ack
    then some chat_ack
    else if protocol_id == Pid.chat_group_push || protocol_id == Pid.chat_push
    then some chat_push
    else if protocol_id == Pid.chat_group_push_ack || protocol_id == Pid.chat_push_ack
    then some chat_push_ack
    else if protocol_id == Pid.chat_sync
    then some chat_sync
    else none
