-- ===== src/Peer/OpCode.antt =====
-- peer/tcp_peer.go: the operation of a frame, in its first byte.
use fim.Base.{ℕ}

abbrev pub handshake : ℕ
handshake = 1

abbrev pub handshake_ack : ℕ
handshake_ack = 2

abbrev pub ping : ℕ
ping = 3

abbrev pub pong : ℕ
pong = 4

abbrev pub message : ℕ
message = 5

abbrev pub close : ℕ
close = 6
