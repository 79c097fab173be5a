-- ===== src/Peer/Seq/Sequential.antt =====
-- Next without interleaving: the sequence numbers of one goroutine.
use fim.Base.{ℕ, ◌+◌, ◌%◌, ◌^◌, ◌≤◌, ◌<◌, ◌≡◌, refl, arith}
use fim.Peer.Seq.{next, next_step, returned, max_uint16}

-- Without interleaving, from a number between 1 and 65534 Next returns the number after it, or 1
-- after 65534, and that is the number it leaves; so it is again between 1 and 65534 and never 0.
pub next_cycle :
    (num : ℕ)
    → 1 ≤ num
    → num < max_uint16
    → (v : ℕ) × (next num ≡ (v, returned v)) × (v ≡ num % 65534 + 1) × (1 ≤ v) × (v < max_uint16)
unfolding next next_step
next_cycle num lo hi = (num % 65534 + 1, ground arith, refl, omega arith, omega arith)

-- From 65535 on, up to the end of uint32, Next no longer wraps to 1: it counts on, and returns the
-- low 16 bits of the count, so that 0 comes after every 65535.
pub next_escaped :
    (num : ℕ)
    → max_uint16 ≤ num
    → num + 1 < 2 ^ 32
    → next num ≡ (num + 1, returned ((num + 1) % 2 ^ 16))
unfolding next next_step
next_escaped num lo hi = ground arith
