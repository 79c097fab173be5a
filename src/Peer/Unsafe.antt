-- ===== src/Peer/Unsafe.antt =====
-- peer/unsafe.go: the conversions between a string and its bytes, which are one list here; that they
-- share their memory is not modelled.
use fim.Wire.Buffer.{Bytes}

pub bytes_to_string : Bytes → Bytes
bytes_to_string b = b

pub string_to_bytes : Bytes → Bytes
string_to_bytes s = s
