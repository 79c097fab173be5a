-- ===== src/Handler/Tests.antt =====
-- The theorem about the dispatch at one packets.
use fim.Base.{
  ℕ, ◌≤◌, ◌≡◌, refl, ◌≢◌, true, none, some, List, [], ◌∷◌, ◌++◌, arith, length, All, eof,
}
use fim.Wire.Samples.{small_ids, small_ids-KsuidLaws}
use fim.LgServer.{read_handler}
use fim.LgServer.Reading.{payloads, packets}
use fim.LgServer.Samples.{
  lg, chat_message, packet, packet_bytes, packet_bytes-Carries, nothing_left,
}
use fim.Handler.{
  Job, Protocol, chat, Dispatched, handle_in_message, pool_func, chat_handler, handler_of,
  new_message_handler,
}
use fim.Handler.Dispatch.{handle_in_message-read_handler}
use fim.Handler.Pools.{IsDispatched, jobs_of, jobs_in}
use fim.Handler.Starved.{new_message_handler-one_job}
use fim.Handler.Samples.{counted_pools, conf}
use fim.Wire.Header.{get_pid}
use fim.Wire.Uint.{uint}
use fim.Wire.Relay.{RelayPacket}

handle_in_message-read_handler_example :
    (d : Dispatched ℕ ℕ) × (handle_in_message counted_pools conf
        (read_handler
          (payloads ((packet_bytes, packet) ∷ []) ++ ([] ∷ packet_bytes ∷ []))
          lg).handled
      ≡ some d)
    × IsDispatched counted_pools conf (jobs_of (packets ((packet_bytes, packet) ∷ []))) d
    × All
        (λ (j : Job ℕ). pool_func {S = ℕ} chat_handler j.1 0 ≢ none)
        (jobs_of (packets ((packet_bytes, packet) ∷ [])))
handle_in_message-read_handler_example =
    handle_in_message-read_handler counted_pools conf ((packet_bytes, packet) ∷ []) []
      (packet_bytes ∷ []) lg eof [] chat_handler 0 small_ids-KsuidLaws (packet_bytes-Carries, tt)
      nothing_left refl

-- Two chat messages.
abbrev two_chats : List (RelayPacket ℕ)
two_chats = packet ∷ packet ∷ []

two_jobs : 2 ≤ length (jobs_in chat (jobs_of two_chats))
unfolding get_pid uint handler_of
two_jobs = omega arith

new_message_handler-one_job_example :
    (d : Dispatched ℕ ℕ) × (handle_in_message counted_pools
        (new_message_handler {K = ℕ} 0).conf
        two_chats
      ≡ some d)
    × ((r : Protocol) → length (jobs_in r d.jobs) ≤ 1)
    × (d.blocked ≡ true)
new_message_handler-one_job_example =
    new_message_handler-one_job counted_pools 0 two_chats chat (λ i j r e. ground (arith, e))
      ((chat_message, refl), ((chat_message, refl), tt)) two_jobs
