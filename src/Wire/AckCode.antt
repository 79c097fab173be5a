-- ===== src/Wire/AckCode.antt =====
-- wire/message.go: the codes of acknowledgements (AckCode).
use Prim.Native.String.{String}
use fim.Base.{ℕ, ◌==◌, if◌then◌else◌}

abbrev pub ok : ℕ
ok = 0x00

abbrev pub receiver_offline : ℕ
receiver_offline = 0x01

abbrev pub be_rejected : ℕ
be_rejected = 0x10

abbrev pub group_be_muted : ℕ
group_be_muted = 0x11

abbrev pub group_no_found : ℕ
group_no_found = 0x12

abbrev pub hit_sensitive_word : ℕ
hit_sensitive_word = 0x13

abbrev pub server_err : ℕ
server_err = 0x50

abbrev pub session_lost : ℕ
session_lost = 0x51

-- `a.String()`; an unknown code gives the empty text.
unfoldable pub to_string : ℕ → String
to_string a =
    if a == ok
    then "Ok(0x00)"
    else if a == receiver_offline
    then "ReceiverOffline(0x01)"
    else if a == be_rejected
    then "BeRejected(0x10)"
    else if a == group_be_muted
    then "GroupBeMuted(0x11)"
    else if a == group_no_found
    then "GroupNoFound(0x12)"
    else if a == hit_sensitive_word
    then "HitSensitiveWord(0x13)"
    else if a == server_err
    then "ServerErr(0x50)"
    else if a == session_lost
    then "SessionLost(0x51)"
    else ""
