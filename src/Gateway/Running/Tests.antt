-- ===== src/Gateway/Running/Tests.antt =====
-- A run in which the client 7 leaves.
use fim.Base.{ℕ, ◌+◌, ◌≡◌, refl, List, ◌++◌}
use fim.Wire.Buffer.{Bytes}
use fim.Wire.Samples.{small_ids, kick_format}
use fim.Peer.Client.{WsClient}
use fim.Gateway.Samples.{gateway, client, clients, socket, socket-NoPanic, gateway-Counted}
use fim.Gateway.Queue.{submit, take_packet, send, receive}
use fim.Gateway.Queue.Order.{in_flight}
use fim.Gateway.Queue.Samples.{
  through, step-entered, step-taken, step-passed, step-in_handler, step-through,
}
use fim.Gateway.Hub.{Packet, disconnect, handle}
use fim.Gateway.Hub.Registry.{apply, drift, registered}
use fim.Gateway.Hub.Counting.{Counted, Keeps}
use fim.Gateway.Hub.Balance.{handle-Keeps}
use fim.Gateway.Hub.Refinement.{replay, total_drift}
use fim.Gateway.Running.{Runs, begins, passes, handles, Runs-refines}

abbrev leaves : Packet ℕ Bytes
leaves = disconnect (client 7)

abbrev left_out :
    Keeps
      (apply kick_format leaves (registered clients))
      (0 + drift kick_format leaves (registered clients))
      (handle kick_format leaves gateway)
left_out = handle-Keeps 0 kick_format leaves gateway clients socket-NoPanic gateway-Counted tt

Runs-through : Runs kick_format gateway (through leaves) left_out.after
Runs-through =
    handles leaves
      (passes receive
        (passes send
          (passes take_packet (passes (submit leaves) begins tt (step-entered leaves)) tt
            (step-taken leaves))
          tt (step-passed leaves))
        tt (step-in_handler leaves))
      refl left_out.returns (step-through leaves)

Runs-refines_example :
    ((through leaves).submitted ≡ (through leaves).finished ++ in_flight (through leaves))
    × ((m : List (ℕ × WsClient ℕ Bytes)) × Counted
          (0 + total_drift kick_format (through leaves).finished (registered clients))
          left_out.after
          m
        × (registered m ≡ replay kick_format (through leaves).finished (registered clients)))
Runs-refines_example =
    Runs-refines kick_format 0 gateway left_out.after clients (through leaves) socket-NoPanic
      gateway-Counted Runs-through (tt, tt)
