-- ===== src/Peer/Tests/Clients.antt =====
-- The theorems about a websocket client at concrete frames and steps.
use fim.Base.{
  ℕ, zero, suc, ◌+◌, ◌≤◌, ◌≡◌, refl, Bool, true, false, List, [], ◌∷◌, eof, done, fail, Act,
}
use fim.Wire.Buffer.{Bytes}
use fim.Wire.Header
use fim.Wire.Message
use fim.Wire.Message.{Message}
use fim.Peer.Samples.{messages}
use fim.Peer.Client.{WsConn, client_closed, client_started}
use fim.Peer.Client.Batch.{batch}
use fim.Peer.Client.Frames.{Item, header, payload, Sent, binary, ping, close}
use fim.Peer.Client.Reading.{WsHeader, WsReader}
use fim.Peer.Client.Lifecycle.{Life, new_life, start, step, Reach, new, next, Reach-ended_once}

-- A connection that is what is still to be read from it, and takes every write.
instance abbrev socket : WsConn (List Item)
socket = record {
  write_server_binary = λ p c. done tt c;
  write_server_message = λ op p c. done tt c;
  set_write_deadline = λ c. done tt c;
  set_read_deadline = λ c. done tt c;
  close = λ c. done tt c;
}

abbrev head : Act (List Item) WsHeader
head (header h ∷ v) = done h v
head v = fail eof v

abbrev body : ℕ → Act (List Item) Bytes
body n (payload b ∷ v) = done b v
body n v = fail eof v

abbrev take_one : ℕ → Bool × ℕ
take_one zero = (true, 0)
take_one (suc n) = (false, n)

-- A bucket that is never filled again.
instance abbrev reader : WsReader (List Item) ℕ
reader = record {
  read_header = head;
  read_payload = body;
  cipher = λ p mask. p;
  new_bucket = λ rate. rate;
  take_waits = take_one;
}

abbrev frames : List Sent
frames =
    binary false [] (batch messages) messages
    ∷ ping true (1 ∷ 2 ∷ 3 ∷ 4 ∷ [])
    ∷ close true (1 ∷ 2 ∷ 3 ∷ 4 ∷ []) 2
    ∷ ping false []
    ∷ []

abbrev life : Life
life = record new_life { state = client_started; reading = 1; starts = 1 }

life-Reach : Reach life
unfolding step
life-Reach = next start new_life life new refl

Reach-ended_once_example :
    (0 + 0 ≤ 1)
    × (1 ≤ 0 + 0 + 1)
    × (life.state ≡ client_closed → life.signals + life.closes ≡ life.starts)
Reach-ended_once_example = Reach-ended_once life life-Reach
