-- ===== src/Peer/Tests/Servers.antt =====
-- The theorems about server connections at concrete payloads and moves.
use fim.Base.{ℕ, ◌+◌, ◌≤◌, ◌≡◌, List, [], ◌∷◌, arith, All}
use fim.Wire.Buffer.{Bytes}
use fim.Peer.Samples.{open_conn}
use fim.Peer.Server.{Server, side_client, new_server}
use fim.Peer.Server.Delivery.{IsShort}
use fim.Peer.Server.Lifecycle.{
  Move, begins, started, ends, closes, run, starts, open_now, run-closes,
}

abbrev payloads : List Bytes
payloads = (1 ∷ 2 ∷ []) ∷ [] ∷ (3 ∷ []) ∷ []

payloads-IsShort : All IsShort payloads
payloads-IsShort = (omega arith, (omega arith, (omega arith, tt)))

abbrev fresh : Server ℕ Bytes
fresh = new_server 3 []

abbrev moves : List (Move Bytes)
moves =
    begins [] side_client
    ∷ started
    ∷ closes
    ∷ ends
    ∷ begins [] side_client
    ∷ started
    ∷ ends
    ∷ closes
    ∷ []

run-closes_example :
    ((run moves fresh).closes + open_now (run moves fresh) ≡ starts moves fresh)
    × ((run moves fresh).disconnects ≤ (run moves fresh).closes)
run-closes_example = run-closes moves 3 []
