-- ===== src/Peer/Frame/RoundTrip.antt =====
-- A frame that NewFrame made is read back from what Encode wrote.
use fim.Base.{
  ℕ, ◌^◌, ◌<◌, ◌≡◌, refl, ap, [], ◌∷◌, ◌++◌, append_assoc, arith, suc-eq-zero, length, eof, done,
  fail, Act,
}
use native.Mathlib.Nat.{mod-eq_of_lt}
use fim.Wire.Buffer.{read_full, Leaves, read_full-Leaves, Bytes, read_full-append, buffer}
use fim.Wire.Uint.{uint, put_uint}
use fim.Wire.Common.{read_fixed_bytes}
use fim.Wire.Common.RoundTrip.{read_full-front}
use fim.Peer.Frame.{
  new_frame_with_encoder, empty, empty_header, new_header, new_frame, get_op_code, get_payload_len,
  decode, decode_header, decode_payload, encode,
}

pub new_header_parts :
    (op n : ℕ)
    → n < 2 ^ 32
    → (get_op_code (new_header op n) ≡ op)
      × (get_payload_len (new_header op n) ≡ n)
      × (length (new_header op n) ≡ 5)
unfolding new_header get_op_code get_payload_len put_uint uint
new_header_parts op n h = (refl, omega arith, refl)

pub new_frame-short :
    (op : ℕ) (payload : Bytes)
    → length payload < 2 ^ 32
    → new_frame op payload ≡ record { header = new_header op (length payload); payload = payload }
unfolding new_frame
new_frame-short op payload h = rw (mod-eq_of_lt h)

-- The bytes of a frame with that operation and payload.
abbrev pub frame_bytes : ℕ → Bytes → Bytes
frame_bytes op payload = new_header op (length payload) ++ payload

pub encode-new_frame :
    (op : ℕ) (payload held : Bytes)
    → length payload < 2 ^ 32
    → encode (new_frame op payload) held ≡ done tt (held ++ frame_bytes op payload)
unfolding encode
encode-new_frame op payload held h =
    rw (new_frame-short op payload h)
      (ap (done tt) (append_assoc held (new_header op (length payload)) payload))

decode_payload-read :
    (h payload rest : Bytes)
    → get_payload_len h ≡ length payload
    → decode_payload (record { header = h; payload = [] }) (payload ++ rest)
      ≡ done (record { header = h; payload = payload }) rest
unfolding decode_payload read_fixed_bytes
decode_payload-read h [] rest e = rw e
decode_payload-read h (b ∷ p) rest e =
    rw (e, suc-eq-zero (length p)) (rw (read_full-append (b ∷ p) rest))

pub decode_header-read :
    (op n : ℕ) (rest : Bytes)
    → n < 2 ^ 32
    → decode_header empty_header (new_header op n ++ rest) ≡ done (new_header op n) rest
unfolding decode_header
decode_header-read op n rest h =
    read_full-front 5 (new_header op n) rest ((new_header_parts op n h).2)

pub decode-frame_bytes :
    (op : ℕ) (payload rest : Bytes)
    → length payload < 2 ^ 32
    → decode empty (frame_bytes op payload ++ rest) ≡ done (new_frame op payload) rest
unfolding decode
decode-frame_bytes op payload rest h =
    rw (new_frame-short op payload h, append_assoc (new_header op (length payload)) payload rest)
      (rw (decode_header-read op (length payload) (payload ++ rest) h) (
        decode_payload-read (new_header op (length payload)) payload rest
          ((new_header_parts op (length payload) h).1)))

pub decode_header-Leaves : (s : Bytes) → Leaves 5 s (decode_header empty_header s)
unfolding decode_header
decode_header-Leaves s = read_full-Leaves 5 s

pub decode_header-nil : decode_header empty_header [] ≡ fail eof []
unfolding decode_header read_full
decode_header-nil = refl

-- The frame that NewFrame makes of an operation and of a payload of fewer than 2 ^ 32 bytes:
-- Encode appends its bytes to a buffer, and Decode reads the frame back from them and leaves what
-- follows; the header then gives the operation and the payload's length.
pub decode-encode :
    (op : ℕ) (payload held rest : Bytes)
    → length payload < 2 ^ 32
    → (out : Bytes) × (encode (new_frame op payload) held ≡ done tt (held ++ out))
      × (decode empty (out ++ rest) ≡ done (new_frame op payload) rest)
      × (get_op_code (new_frame op payload).header ≡ op)
      × (get_payload_len (new_frame op payload).header ≡ length payload)
decode-encode op payload held rest h =
    let (op_code, len, _) = new_header_parts op (length payload) h in
    (
      frame_bytes op payload,
      encode-new_frame op payload held h,
      decode-frame_bytes op payload rest h,
      rw (new_frame-short op payload h) op_code,
      rw (new_frame-short op payload h) len,
    )

pub new_frame_with_encoder-done :
    {S : Type 0} (op : ℕ) (encoder : Act Bytes (Unit {0})) (payload : Bytes) (s : S)
    → encoder [] ≡ done tt payload
    → new_frame_with_encoder op encoder s ≡ done (new_frame op payload) s
unfolding new_frame_with_encoder
new_frame_with_encoder-done op encoder payload s h = rw (h, new_frame_with_encoder)
