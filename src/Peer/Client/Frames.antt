-- ===== src/Peer/Client/Frames.antt =====
-- The frames that the other side of a client's connection sends, and what the client is to make of
-- them.
use fim.Base.{
  ℕ, ◌≤◌, ◌≡◌, ◌≢◌, Bool, List, [], ◌∷◌, ◌++◌, if◌then◌else◌, length, All, Error, done, fail,
}
use fim.Wire.Buffer.{Bytes}
use fim.Wire.Message
use fim.Wire.Message.{Message}
use fim.Wire.Message.RoundTrip.{IsFramed}
use fim.Peer.Client.{WsConn, ignoring, write_control, write_message, op_close}
use fim.Peer.Client.Batch.{batch, relayed}
use fim.Peer.Client.Reading.{WsHeader, WsReader, unmask, op_binary, op_ping, op_pong}

-- What is still to be read from a connection.
pub data Item : Type 0 where
  header : WsHeader → Item
  payload : Bytes → Item

-- A frame of the other side, under a mask or not: messages in the bytes of a binary frame, a frame
-- that is neither binary, a ping nor a close, a ping without a payload, or a close of any length, behind
-- whose header the loop reads nothing.
pub data Sent : Type 0 where
  binary : Bool → Bytes → Bytes → List Message → Sent
  other : Bool → Bytes → ℕ → Bytes → Sent
  ping : Bool → Bytes → Sent
  close : Bool → Bytes → ℕ → Sent

abbrev pub binary_header : Bool → Bytes → Bytes → WsHeader
binary_header masked mask wire = record {
  op_code = op_binary;
  payload_len = length wire;
  masked = masked;
  mask = mask;
}

abbrev pub plain_header : Bool → Bytes → ℕ → ℕ → WsHeader
plain_header masked mask op_code n = record {
  op_code = op_code;
  payload_len = n;
  masked = masked;
  mask = mask;
}

abbrev pub items : List Sent → List Item
items [] = []
items (binary masked mask wire ms ∷ fs) =
    header (binary_header masked mask wire) ∷ payload wire ∷ items fs
items (other masked mask op_code wire ∷ fs) =
    header (plain_header masked mask op_code (length wire)) ∷ payload wire ∷ items fs
items (ping masked mask ∷ fs) = header (plain_header masked mask op_ping 0) ∷ items fs
items (close masked mask n ∷ fs) = header (plain_header masked mask op_close n) ∷ items fs

module _ {C T : Type 0} (ws : WsConn C) (rd : WsReader C T) where
  -- A connection from which `view` is still to be read: the header and the payload of each frame come
  -- one after the other and then an error, and neither a deadline nor a write changes what is to be
  -- read; the writes of pongs succeed.
  pub record Carries (view : C → List Item) : Type 0 where
    pub at_header :
        (h : WsHeader) (v : List Item) (c : C)
        → view c ≡ header h ∷ v
        → (c' : C) × (rd.read_header c ≡ done h c') × (view c' ≡ v)
    pub at_payload :
        (b : Bytes) (v : List Item) (c : C)
        → view c ≡ payload b ∷ v
        → (c' : C) × (rd.read_payload (length b) c ≡ done b c') × (view c' ≡ v)
    pub at_end : (c : C) → view c ≡ [] → (e : Error) × (c' : C) × (rd.read_header c ≡ fail e c')
    pub deadline : (c : C) → view (ignoring ws.set_read_deadline c) ≡ view c
    pub pong :
        (c : C)
        → (c' : C) × (write_control ⦃ws = ws⦄ op_pong [] c ≡ done tt c') × (view c' ≡ view c)
    pub answer : (c : C) → view (ignoring (write_message ⦃ws = ws⦄ Message.pong) c) ≡ view c

  -- A frame whose messages, of ten-byte headers that count their payloads, are what its bytes of ten
  -- at least unmask to; or one of another operation, also with
  -- ten bytes at least.
  abbrev pub IsSent : Sent → Type 0
  IsSent (binary masked mask wire ms) =
      All IsFramed ms
      × (unmask rd.cipher (binary_header masked mask wire) wire ≡ batch ms)
      × (10 ≤ length wire)
  IsSent (other masked mask op_code wire) =
      (op_code ≢ op_binary) × (op_code ≢ op_ping) × (op_code ≢ op_close) × (10 ≤ length wire)
  IsSent (ping masked mask) = Unit {0}
  IsSent (close masked mask n) = Unit {0}

  -- What OnMsg is to get: the messages that are no pings, up to the first close, less those of frames
  -- at which the bucket makes the client wait.
  abbrev pub delivered : List Sent → T → List Message
  delivered [] t = []
  delivered (binary masked mask wire ms ∷ fs) t =
      let (waits, t') = rd.take_waits t in
      let rest = delivered fs t' in if waits then rest else relayed ms ++ rest
  delivered (other masked mask op_code wire ∷ fs) t = delivered fs (rd.take_waits t).1
  delivered (ping masked mask ∷ fs) t = delivered fs t
  delivered (close masked mask n ∷ fs) t = []
