-- ===== src/Peer/Tests.antt =====
-- The theorems about peer/ at concrete frames, connections and numbers.
mod Connections
mod Servers
mod Clients
use fim.Base.{
  ℕ, ◌+◌, ◌-◌, ◌/◌, ◌%◌, ◌^◌, ◌≤◌, ◌<◌, ◌≡◌, ap, true, false, some, [], ◌∷◌, ◌++◌, arith, replicate,
  done, return,
}
use fim.Peer.Seq.{next, returned, max_uint16}
use fim.Peer.Seq.Sequential.{next_cycle, next_escaped}
use fim.Peer.Event.{Event, new_event, has_fired, is_done, fire_all, fire_once_only}

next_cycle_example :
    (v : ℕ) × (next 65534 ≡ (v, returned v)) × (v ≡ 65534 % 65534 + 1) × (1 ≤ v) × (v < max_uint16)
next_cycle_example = next_cycle 65534 (omega arith) (omega arith)

fire_once_only_example :
    (has_fired new_event ≡ false)
    × (is_done new_event ≡ false)
    × ((e : Event) × (fire_all 4 ≡ some (e, replicate 3 false ++ (true ∷ [])))
        × (has_fired e ≡ true)
        × (is_done e ≡ true))
fire_once_only_example = fire_once_only 3
