-- ===== src/Handler/Samples.antt =====
-- Pools whose workers are never done, for the tests.
use fim.Base.{ℕ, zero, suc, ◌+◌, Option, none, some}
use fim.Handler.{Grpool, Job, HandlerConfig}

-- A pool, as the number of the jobs that it still takes: one for each worker, one for each that waits,
-- and one that waits for a worker.
abbrev pub take_job : Job ℕ → ℕ → Option ℕ
take_job j zero = none
take_job j (suc n) = some n

abbrev pub counted_pools : Grpool ℕ ℕ
counted_pools = record { new_pool = λ workers queue. suc (workers + queue); put = take_job }

abbrev pub conf : HandlerConfig
conf = record { pool_login = 1; pool_logout = 1; pool_chat = 2; pool_chat_ack = 1 }
