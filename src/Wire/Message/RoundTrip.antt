-- ===== src/Wire/Message/RoundTrip.antt =====
-- A message that is written on any writer is its header and its payload; from a buffer it is read
-- back.
use fim.Base.{
  ℕ, zero, suc, ◌-◌, ◌≤◌, ◌<◌, ◌≡◌, refl, ap, subst, [], ◌∷◌, ◌++◌, append-nil, append_assoc, arith,
  suc-eq-zero, length, take, drop, replicate, length-take, take-append-drop, drop-replicate,
  replicate_none, eof, done, fail,
}
use fim.Wire.Buffer.{read, Bytes, read-append, read-short, buffer}
use fim.Wire.Header
use fim.Wire.Header.{IsHeader, get_payload_len}
use fim.Wire.Header.Fields.{decode-header}
use fim.Wire.Message
use fim.Wire.Message.{Message, decode, decode_payload, encode, bytes}

-- Ten bytes of header, which give the payload's length.
pub record IsFramed (m : Message) : Type 0 where
  pub header : IsHeader m.header
  pub counted : get_payload_len m.header ≡ length m.payload

encode_parts :
    (h p held : Bytes)
    → encode (record { header = h; payload = p }) held ≡ done tt (held ++ (h ++ p))
unfolding encode Header.encode
encode_parts h [] held = rw append-nil
encode_parts h (b ∷ p) held =
    rw (suc-eq-zero (length p)) (ap (done tt) (append_assoc held h (b ∷ p)))

-- Into a buffer, Encode appends the header and the payload.
pub encode-buffer :
    (m : Message) (held : Bytes) → encode m held ≡ done tt (held ++ (m.header ++ m.payload))
encode-buffer m held = encode_parts m.header m.payload held

pub bytes-parts : (m : Message) → bytes m ≡ m.header ++ m.payload
unfolding bytes
bytes-parts m = rw (encode-buffer m [])

decode_payload_parts :
    (h p rest : Bytes)
    → get_payload_len h ≡ length p
    → decode_payload (record { header = h; payload = [] }) (p ++ rest)
      ≡ done (record { header = h; payload = p }) rest
unfolding decode_payload
decode_payload_parts h [] rest e = rw e
decode_payload_parts h (b ∷ p) rest e =
    rw (e, suc-eq-zero (length p))
      (rw (read-append (b ∷ p) rest) (
        rw (drop-replicate {A = ℕ} (length p) (length p) 0)
          (rw (replicate_none {A = ℕ} (length p - length p) 0 (omega arith), append-nil))))

-- A framed message at the front of a buffer is read back, and what follows it is left.
pub decode-framed :
    (m : Message) (rest : Bytes)
    → IsFramed m
    → decode Message.empty (m.header ++ (m.payload ++ rest)) ≡ done m rest
unfolding decode
decode-framed m rest f =
    rw (decode-header Header.empty m.header (m.payload ++ rest) refl f.header)
      (decode_payload_parts m.header m.payload rest f.counted)

-- A payload cut short: one Read fills the slice in part, and the rest of it stays zero.
decode_payload_short :
    (h p : Bytes) (n : ℕ)
    → get_payload_len h ≡ n
    → 0 < length p
    → length p ≤ n
    → decode_payload (record { header = h; payload = [] }) p
      ≡ done (record { header = h; payload = p ++ replicate (n - length p) 0 }) []
unfolding decode_payload
decode_payload_short h p zero e pos le = absurd (omega arith)
decode_payload_short h p (suc n) e pos le =
    rw (e, suc-eq-zero n)
      (rw (read-short (suc n) p pos le) (rw (drop-replicate {A = ℕ} (length p) (suc n) 0)))

-- A header that counts more payload bytes than have come, of which there is one at least: Decode
-- does not fail, but gives a message whose payload is filled up with zeros, and leaves nothing.
pub decode_short :
    (h p : Bytes)
    → IsHeader h
    → 0 < length p
    → length p ≤ get_payload_len h
    → decode Message.empty (h ++ p)
      ≡ done (record { header = h; payload = p ++ replicate (get_payload_len h - length p) 0 }) []
unfolding decode
decode_short h p is pos le =
    rw (decode-header Header.empty h p refl is)
      (decode_payload_short h p (get_payload_len h) refl pos le)

-- A message of ten bytes of header that give its payload's length is read back by Decode from the
-- front of what Bytes wrote, and Decode leaves what follows it.
pub decode-bytes :
    (m : Message) (rest : Bytes) → IsFramed m → decode Message.empty (bytes m ++ rest) ≡ done m rest
decode-bytes m rest f =
    rw (bytes-parts m, append_assoc m.header m.payload rest) (decode-framed m rest f)

-- Whatever stands behind a header, Decode takes as many bytes as the header counts.
pub decode_counted :
    (h q : Bytes)
    → IsHeader h
    → get_payload_len h ≤ length q
    → decode Message.empty (h ++ q)
      ≡ done
          (record { header = h; payload = take (get_payload_len h) q })
          (drop (get_payload_len h) q)
decode_counted h q is le =
    subst
      (λ r.
        decode Message.empty (h ++ r) ≡ done (record { header = h; payload = take n q }) (drop n q))
      (take-append-drop n q)
      (decode-framed (record { header = h; payload = take n q }) (drop n q)
        (record { header = is; counted = omega (arith, length-take {0} n q) }))
  where
    n : ℕ
    n = get_payload_len h

-- An empty buffer is io.EOF.
pub decode-nil : decode Message.empty [] ≡ fail eof []
unfolding decode Header.decode read
decode-nil = refl
