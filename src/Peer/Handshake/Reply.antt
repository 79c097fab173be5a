-- ===== src/Peer/Handshake/Reply.antt =====
-- The answer to a handshake's request, from the accepting side to the decision of the connecting one.
use fim.Base.{
  ℕ, ◌+◌, ◌^◌, ◌<◌, ◌≡◌, refl, ap, subst, [], ◌++◌, append-nil, append_assoc, arith, ◌==◌,
  if◌then◌else◌, length, length-append, handshake_failed, done, fail, Act,
}
use native.Mathlib.Nat.{mod-eq_of_lt}
use fim.Wire.Buffer.{Bytes, buffer}
use fim.Wire.Uint.{put_uint, length-put_uint}
use fim.Wire.Common.{write_bytes, write_uint16, write_uint32, write_string}
use fim.Wire.Common.RoundTrip.{read_string-prefixed, read_uint16-put}
use fim.Peer.OpCode
use fim.Peer.Frame
use fim.Peer.Frame.{Frame, new_frame, from_payload, new_frame_with_encoder}
use fim.Peer.Frame.RoundTrip.{
  new_frame_with_encoder-done, frame_bytes, encode-new_frame, decode-frame_bytes, new_frame-short,
  new_header_parts,
}
use fim.Peer.Handshake.{
  HandshakeAck, Conn, receiving, sending, decode_ack, encode_ack, send_ack, read_ack,
}

module _ {W A : Type 0} where
  pub receiving-done :
      (m : Act Bytes A) (c : Conn W) (a : A) (rest : Bytes)
      → m c.incoming ≡ done a rest
      → receiving m c ≡ done a (record c { incoming = rest })
  receiving-done m c a rest h = rw (h, receiving)

  pub sending-done :
      (m : Act W A) (c : Conn W) (a : A) (out : W)
      → m c.out ≡ done a out
      → sending m c ≡ done a (record c { out = out })
  sending-done m c a out h = rw (h, sending)

abbrev pub ack_payload : HandshakeAck → Bytes
ack_payload h = put_uint 2 h.code ++ (put_uint 4 (length h.error) ++ h.error)

-- The answer's frame.
abbrev pub ack_bytes : HandshakeAck → Bytes
ack_bytes h = frame_bytes OpCode.handshake_ack (ack_payload h)

-- A uint16 code, and a text whose length fits the frame with six bytes more.
pub record Fits (h : HandshakeAck) : Type 0 where
  pub code : h.code < 2 ^ 16
  pub error : length h.error + 6 < 2 ^ 32

ack_payload_short : (h : HandshakeAck) → Fits h → length (ack_payload h) < 2 ^ 32
ack_payload_short h f = omega (
  arith,
  f.error,
  length-append (put_uint 2 h.code) (put_uint 4 (length h.error) ++ h.error),
  length-append (put_uint 4 (length h.error)) h.error,
  length-put_uint 2 h.code,
  length-put_uint 4 (length h.error),
)

encode_ack-payload : (h : HandshakeAck) → Fits h → encode_ack h [] ≡ done tt (ack_payload h)
unfolding encode_ack write_uint16 write_string write_bytes write_uint32
encode_ack-payload h f =
    rw (mod-eq_of_lt {n = length h.error} {m = 2 ^ 32} (omega (arith, f.error)))
      (ap (done tt) (append_assoc (put_uint 2 h.code) (put_uint 4 (length h.error)) h.error))

pub send_ack-bytes :
    (h : HandshakeAck) (held : Bytes) → Fits h → send_ack h held ≡ done tt (held ++ ack_bytes h)
unfolding send_ack
send_ack-bytes h held f =
    rw
      (new_frame_with_encoder-done OpCode.handshake_ack (encode_ack h) (ack_payload h) held
        (encode_ack-payload h f))
      (rw (encode-new_frame OpCode.handshake_ack (ack_payload h) held (ack_payload_short h f)))

decode_ack-parts :
    (h : HandshakeAck) (rest : Bytes)
    → Fits h
    → decode_ack (put_uint 2 h.code ++ (put_uint 4 (length h.error) ++ (h.error ++ rest)))
      ≡ done h rest
unfolding decode_ack
decode_ack-parts h rest f =
    rw (read_uint16-put h.code, f.code)
      (rw (read_string-prefixed h.error rest (omega (arith, f.error))))

decode_ack-payload : (h : HandshakeAck) → Fits h → decode_ack (ack_payload h) ≡ done h []
decode_ack-payload h f =
    subst (λ e. decode_ack (put_uint 2 h.code ++ (put_uint 4 (length h.error) ++ e)) ≡ done h [])
      (append-nil h.error) (decode_ack-parts h [] f)

pub frame_op :
    (op : ℕ) (payload : Bytes)
    → length payload < 2 ^ 32
    → (Frame.get_op_code (new_frame op payload).header ≡ op)
      × ((new_frame op payload).payload ≡ payload)
frame_op op payload h =
    rw (new_frame-short op payload h) ((new_header_parts op (length payload) h).0, refl)

-- The connecting side accepts an answer with the code 200 and no other.
pub read_ack-bytes :
    (h : HandshakeAck) (rest : Bytes)
    → Fits h
    → read_ack (ack_bytes h ++ rest)
      ≡ (if h.code == 200 then done tt rest else fail handshake_failed rest)
unfolding read_ack
read_ack-bytes h rest f =
    let (op, payload) = frame_op OpCode.handshake_ack (ack_payload h) (ack_payload_short h f) in
    rw (decode-frame_bytes OpCode.handshake_ack (ack_payload h) rest (ack_payload_short h f))
      (rw (op, payload) (rw (decode_ack-payload h f, from_payload) (ground arith)))

-- What the connecting side makes of an answer.
abbrev pub accepted : {W : Type 0} → HandshakeAck → Act W (Unit {0})
accepted h c = if h.code == 200 then done tt c else fail handshake_failed c
