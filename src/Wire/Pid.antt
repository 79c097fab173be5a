-- ===== src/Wire/Pid.antt =====
-- wire/message.go: the protocol identifiers (PID) of the data between client and server.
use Prim.Native.Nat.{ℕ}

abbrev pub login : ℕ
login = 0x01

abbrev pub login_ack : ℕ
login_ack = 0x02

abbrev pub kick_out : ℕ
kick_out = 0x03

abbrev pub logout : ℕ
logout = 0x04

abbrev pub ping : ℕ
ping = 0x05

abbrev pub pong : ℕ
pong = 0x06

abbrev pub chat : ℕ
chat = 0x11

abbrev pub chat_ack : ℕ
chat_ack = 0x12

abbrev pub chat_push : ℕ
chat_push = 0x13

abbrev pub chat_push_ack : ℕ
chat_push_ack = 0x14

abbrev pub chat_sync : ℕ
chat_sync = 0x15

abbrev pub chat_group : ℕ
chat_group = 0x16

abbrev pub chat_group_ack : ℕ
chat_group_ack = 0x17

abbrev pub chat_group_push : ℕ
chat_group_push = 0x18

abbrev pub chat_group_push_ack : ℕ
chat_group_push_ack = 0x19
