-- ===== src/Peer/Frame.antt =====
-- peer/tcp_peer.go: Frame, the unit of a connection between servers: a byte for the operation, the
-- payload's length in four bytes, and the payload.
pub mod RoundTrip
use fim.Base.{
  ◌>>=◌, ◌>>◌, ℕ, ◌+◌, ◌-◌, ◌/◌, ◌%◌, ◌^◌, ite, [], ◌∷◌, ◌++◌, ◌==◌, if◌then◌else◌, length, get_or,
  set, take, drop, replicate, done, fail, panic, Act, return, Writer,
}
use fim.Wire.Buffer.{Bytes, read_full, write, buffer}
use fim.Wire.Uint.{uint, put_uint}
use fim.Wire.Common.{read_fixed_bytes}

-- The header is [5]byte; `h[1:5]` holds the length.
abbrev pub empty_header : Bytes
empty_header = replicate 5 0

unfoldable pub get_op_code : Bytes → ℕ
get_op_code h = get_or h 0 0

unfoldable pub get_payload_len : Bytes → ℕ
get_payload_len h = uint (take 4 (drop 1 h))

pub set_op_code : Bytes → ℕ → Bytes
set_op_code h op_code = set h 0 op_code

unfoldable pub set_payload_len : Bytes → ℕ → Bytes
set_payload_len h len = take 1 h ++ (put_uint 4 len ++ drop 5 h)

unfoldable pub new_header : ℕ → ℕ → Bytes
unfolding set_payload_len
new_header op_code plen = set_payload_len (op_code ∷ 0 ∷ 0 ∷ 0 ∷ 0 ∷ []) plen

pub decode_header : Bytes → Act Bytes Bytes
decode_header h = read_full (length h)

pub record Frame : Type 0 where
  pub header : Bytes
  pub payload : Bytes

-- `Frame{}`
abbrev pub empty : Frame
empty = record { header = empty_header; payload = [] }

-- `uint32(len(payload))` keeps the low 32 bits.
unfoldable pub new_frame : ℕ → Bytes → Frame
new_frame op_code payload = record {
  header = new_header op_code (length payload % 2 ^ 32);
  payload = payload;
}

-- The encoder writes into a buffer of its own; its error is passed on.
pub new_frame_with_encoder : {S : Type 0} → ℕ → Act Bytes (Unit {0}) → Act S Frame
new_frame_with_encoder op_code encoder s = elim (encoder []) [
  | done _ payload ↦ done (new_frame op_code payload) s
  | fail e _ ↦ fail e s
  | panic ↦ panic
]

-- The part of Decode behind the header.
decode_payload : Frame → Act Bytes Frame
decode_payload f s =
    if get_payload_len f.header == 0
    then done f s
    else (do
      payload ← read_fixed_bytes (get_payload_len f.header)
      return (record f { payload = payload }))
        s

-- What a failed Decode has written into `f` is left out: no caller looks at it.
pub decode : Frame → Act Bytes Frame
unfolding decode_header decode_payload
decode f = do header ← decode_header f.header; decode_payload (record f { header = header })

unfoldable pub encode : {W : Type 0} ⦃w : Writer W⦄ → Frame → Act W (Unit {0})
encode f = do write f.header; write f.payload

-- A frame's payload, decoded from a buffer of its own.
abbrev pub from_payload : {S A : Type 0} → Bytes → Act Bytes A → Act S A
from_payload payload decoder s = elim (decoder payload) [
  | done a _ ↦ done a s
  | fail e _ ↦ fail e s
  | panic ↦ panic
]

pub write_payload : Act Bytes (Unit {0}) → Act Frame (Unit {0})
write_payload body f = elim (body []) [
  | done _ payload ↦
      done tt
        (record { header = set_payload_len f.header (length payload % 2 ^ 32); payload = payload })
  | fail e _ ↦ fail e f
  | panic ↦ panic
]
