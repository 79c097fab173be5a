-- ===== src/Peer/Client/Delivery.antt =====
-- The read loop of a client on the frames that the other side has sent.
use fim.Base.{ℕ, suc, ◌<◌, ◌≡◌, ◌∙◌, ◌≢◌, true, List, ◌∷◌, arith, lt→ltb, length, ==-false}
use fim.Wire.Buffer.{Bytes}
use fim.Wire.Message.{Message}
use fim.Peer.Client.{WsConn, ignoring, op_close}
use fim.Peer.Client.Frames.{Item, header, payload, Sent, items, Carries, delivered}
use fim.Peer.Client.Reading.{
  WsHeader, WsReader, Read, stopped, crashed, op_ping, after_payload, after_header, read_loop,
}

module _ {C T : Type 0} ⦃ws : WsConn C⦄ ⦃rd : WsReader C T⦄ (view : C → List Item)
    (v : Carries ws rd view) where
  -- The loop has stopped after `ms`.
  abbrev Stops : List Message → Read C → Type 0
  Stops ms r = (c' : C) × (r ≡ record { messages = ms; conn = c'; end = stopped })

  -- What the further rounds do on the frames `fs`.
  abbrev Goes : List Sent → (C → T → Read C) → Type 0
  Goes fs more = (c : C) (t : T) → view c ≡ items fs → Stops (delivered ws rd fs t) (more c t)

  -- A header with a payload behind it leads to that payload.
  payload_round :
      (h : WsHeader) (wire : Bytes) (rest : List Item) (more : C → T → Read C) (c : C) (t : T)
      → h.op_code ≢ op_close
      → h.op_code ≢ op_ping
      → 0 < length wire
      → h.payload_len ≡ length wire
      → view c ≡ payload wire ∷ rest
      → (c' : C) × (after_header h c t more ≡ after_payload h wire c' t more) × (view c' ≡ rest)
  unfolding after_header
  payload_round h wire rest more c t no_close no_ping long len e =
      let (c', reads, e') =
        v.at_payload wire rest (ignoring ws.set_read_deadline c) (v.deadline c ∙ e) in
      (
        c',
        rw (
          ==-false h.op_code op_close no_close,
          ==-false h.op_code op_ping no_ping,
          len,
          ==-false (length wire) 0 (λ z. absurd (omega arith)),
          reads,
        ),
        e',
      )

  -- A frame that is no close and no ping, with a payload of one to nine bytes, at which the rate limit
  -- makes the client wait: the loop panics, since the log of the thrown message slices ten bytes.
  pub read_loop_crashes :
      (h : WsHeader) (wire : Bytes) (rest : List Item) (fuel : ℕ) (c : C) (t : T)
      → view c ≡ header h ∷ payload wire ∷ rest
      → h.payload_len ≡ length wire
      → h.op_code ≢ op_close
      → h.op_code ≢ op_ping
      → 0 < length wire
      → length wire < 10
      → (rd.take_waits t).0 ≡ true
      → (read_loop (suc fuel) c t).end ≡ crashed
  unfolding read_loop after_header after_payload
  read_loop_crashes h wire rest fuel c t e len no_close no_ping some_byte short waits =
      let (c1, heads, e1) = v.at_header h (payload wire ∷ rest) c e in
      let (c2, goes, e2) =
        payload_round h wire rest (read_loop fuel) c1 t no_close no_ping some_byte len e1 in
      rw (heads, read_loop, goes, waits, lt→ltb (length wire) 10 short)
