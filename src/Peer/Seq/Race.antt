-- ===== src/Peer/Seq/Race.antt =====
-- Two goroutines in Next at the end of the cycle, as the steps that each makes.
use fim.Base.{◌≡◌, refl}
use fim.Peer.Seq.{next_step, adding, swapping, returned}

-- The second addition comes between the first one and its swap: it returns 0.
second_returns_zero : next_step (next_step 65534 adding).0 adding ≡ (65536, returned 0)
unfolding next_step
second_returns_zero = refl

-- The first goroutine's swap then fails, and its next addition finds the number past the cycle.
first_swap_fails : next_step 65536 (swapping 65535) ≡ (65536, adding)
unfolding next_step
first_swap_fails = refl
