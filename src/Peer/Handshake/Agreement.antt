-- ===== src/Peer/Handshake/Agreement.antt =====
-- Both ends of a handshake: what the connecting side writes is what the accepting side reads, and
-- the answer is what the connecting side decides by.
use fim.Base.{
  ℕ, ◌+◌, ◌^◌, ◌<◌, ◌≡◌, ap, subst, ◌≢◌, Option, [], ◌++◌, append-nil, append_assoc, arith, length,
  length-append, not_handshake, done, fail,
}
use native.Mathlib.Nat.{mod-eq_of_lt}
use fim.Wire.Buffer.{Bytes, buffer}
use fim.Wire.Uint.{put_uint, length-put_uint}
use fim.Wire.Ksuid.{Ksuids, KsuidLaws, decode_ksuid-bytes}
use fim.Wire.Common.{write_bytes, write_uint32}
use fim.Wire.Common.RoundTrip.{read_bytes-prefixed}
use fim.Peer.OpCode
use fim.Peer.Frame.{from_payload}
use fim.Peer.Frame.RoundTrip.{
  new_frame_with_encoder-done, frame_bytes, encode-new_frame, decode-frame_bytes,
}
use fim.Peer.Handshake.{
  HandshakeReq, HandshakeAck, receiving, answer, decode_req, encode_req, send_ack, read_ack,
  read_req, upgrade, write_req, connect_server, code_handshake_ok,
}
use fim.Peer.Handshake.Reply.{
  receiving-done, sending-done, ack_bytes, Fits, send_ack-bytes, read_ack-bytes, frame_op, accepted,
}

module _ {K : Type 0} ⦃ks : Ksuids K⦄ where
  abbrev req_payload : HandshakeReq K → Bytes
  req_payload h = ks.bytes h.sid ++ (put_uint 4 (length h.meta) ++ h.meta)

  abbrev pub req_bytes : HandshakeReq K → Bytes
  req_bytes h = frame_bytes OpCode.handshake (req_payload h)

  module _ (laws : KsuidLaws ks) (h : HandshakeReq K)
      (fits : length h.meta + ks.size + 4 < 2 ^ 32) where
    req_payload_short : length (req_payload h) < 2 ^ 32
    req_payload_short = omega (
      arith,
      length-append (ks.bytes h.sid) (put_uint 4 (length h.meta) ++ h.meta),
      length-append (put_uint 4 (length h.meta)) h.meta,
      laws.length_bytes h.sid,
      length-put_uint 4 (length h.meta),
    )

    encode_req-payload : encode_req h [] ≡ done tt (req_payload h)
    unfolding encode_req write_bytes write_uint32
    encode_req-payload =
        rw (mod-eq_of_lt {n = length h.meta} {m = 2 ^ 32} (omega arith))
          (ap (done tt) (append_assoc (ks.bytes h.sid) (put_uint 4 (length h.meta)) h.meta))

    write_req-bytes : (held : Bytes) → write_req h.sid h.meta held ≡ done tt (held ++ req_bytes h)
    unfolding write_req
    write_req-bytes held =
        rw
          (new_frame_with_encoder-done OpCode.handshake (encode_req h) (req_payload h) held
            encode_req-payload)
          (encode-new_frame OpCode.handshake (req_payload h) held req_payload_short)

    decode_req-parts :
        (rest : Bytes)
        → decode_req (ks.bytes h.sid ++ (put_uint 4 (length h.meta) ++ (h.meta ++ rest)))
          ≡ done h rest
    unfolding decode_req
    decode_req-parts rest =
        rw (decode_ksuid-bytes laws h.sid) (rw (read_bytes-prefixed h.meta rest (omega arith)))

    decode_req-payload : decode_req (req_payload h) ≡ done h []
    decode_req-payload =
        subst (λ e. decode_req (ks.bytes h.sid ++ (put_uint 4 (length h.meta) ++ e)) ≡ done h [])
          (append-nil h.meta) (decode_req-parts [])

    read_req-bytes : (rest : Bytes) → read_req (req_bytes h ++ rest) ≡ done h rest
    unfolding read_req
    read_req-bytes rest =
        let (op, payload) = frame_op OpCode.handshake (req_payload h) req_payload_short in
        rw (decode-frame_bytes OpCode.handshake (req_payload h) rest req_payload_short)
          (rw (op, payload) (rw (decode_req-payload, from_payload)))

    -- The answer that the callback decides on.
    module _ (on_handshake : HandshakeReq K → ℕ × Option Bytes)
        (f : Fits (answer (on_handshake h))) where
      upgrade-bytes :
          (rest held : Bytes)
          → upgrade on_handshake (record { incoming = req_bytes h ++ rest; out = held })
            ≡ done h (record { incoming = rest; out = held ++ ack_bytes (answer (on_handshake h)) })
      unfolding upgrade
      upgrade-bytes rest held =
          rw
            (
              receiving-done read_req (record { incoming = req_bytes h ++ rest; out = held }) h rest
                  (read_req-bytes rest),
              upgrade,
            )
            (rw (
              sending-done (send_ack (answer (on_handshake h)))
                (record { incoming = rest; out = held }) tt _
                (send_ack-bytes (answer (on_handshake h)) held f)))

      connect-bytes :
          (rest held : Bytes)
          → connect_server h.sid h.meta
              (record { incoming = ack_bytes (answer (on_handshake h)) ++ rest; out = held })
            ≡ accepted
                (answer (on_handshake h))
                (record { incoming = rest; out = held ++ req_bytes h })
      unfolding connect_server
      connect-bytes rest held =
          rw
            (sending-done (write_req h.sid h.meta)
              (record { incoming = ack_bytes (answer (on_handshake h)) ++ rest; out = held }) tt _
              (write_req-bytes held))
            (rw (read_ack-bytes (answer (on_handshake h)) rest f, receiving) (ground arith))

-- A request and the callback's answer to it, both short enough for their frames, with identifiers
-- that are read back from their bytes. Each side's bytes are what the other side reads: the
-- accepting side's Upgrade gives the request that ConnectServer wrote, without an error whatever
-- the callback's verdict; ConnectServer succeeds exactly if the callback's code is 200, and fails
-- with the handshake's error otherwise; and each side leaves the bytes that follow.
pub connect_server-upgrade :
    {K : Type 0} ⦃ks : Ksuids K⦄ (on_handshake : HandshakeReq K → ℕ × Option Bytes)
    (h : HandshakeReq K) (to_client to_server : Bytes)
    → KsuidLaws ks
    → length h.meta + ks.size + 4 < 2 ^ 32
    → Fits (answer (on_handshake h))
    → (request reply : Bytes) × (upgrade on_handshake
          (record { incoming = request ++ to_server; out = [] })
        ≡ done h (record { incoming = to_server; out = reply }))
      × (connect_server h.sid h.meta (record { incoming = reply ++ to_client; out = [] })
          ≡ accepted (answer (on_handshake h)) (record { incoming = to_client; out = request }))
connect_server-upgrade on_handshake h to_client to_server laws fits f = (
  req_bytes h,
  ack_bytes (answer (on_handshake h)),
  upgrade-bytes laws h fits on_handshake f to_server [],
  connect-bytes laws h fits on_handshake f to_client [],
)

read_req-other :
    {K : Type 0} ⦃ks : Ksuids K⦄ (op : ℕ) (payload rest : Bytes)
    → op ≢ OpCode.handshake
    → length payload < 2 ^ 32
    → read_req {K = K} (frame_bytes op payload ++ rest) ≡ fail not_handshake rest
unfolding read_req
read_req-other {K} op payload rest other short =
    rw (decode-frame_bytes op payload rest short)
      (rw ((frame_op op payload short).0) (ground arith))

-- A frame of another operation in place of the request: Upgrade fails, but its answer still carries
-- the code 200, so that a connecting side which reads it takes the handshake for accepted.
pub upgrade_not_handshake :
    {K : Type 0} ⦃ks : Ksuids K⦄ (on_handshake : HandshakeReq K → ℕ × Option Bytes) (op : ℕ)
    (payload rest to_client : Bytes)
    → op ≢ OpCode.handshake
    → length payload < 2 ^ 32
    → (reply : Bytes) × (upgrade on_handshake
          (record { incoming = frame_bytes op payload ++ rest; out = [] })
        ≡ fail not_handshake (record { incoming = rest; out = reply }))
      × (read_ack (reply ++ to_client) ≡ done tt to_client)
unfolding upgrade
upgrade_not_handshake {K} on_handshake op payload rest to_client other short = (
  ack_bytes ok_ack,
  rw (read_req-other {K = K} op payload rest other short, upgrade, receiving)
      (rw (
        sending-done (send_ack ok_ack) (record { incoming = rest; out = [] }) tt _
          (send_ack-bytes ok_ack [] ok_fits))),
  read_ack-bytes ok_ack to_client ok_fits,
)
  where
    ok_ack : HandshakeAck
    ok_ack = record { code = code_handshake_ok; error = [] }

    ok_fits : Fits ok_ack
    ok_fits = record { code = omega arith; error = omega arith }
