-- ===== src/Peer/Seq.antt =====
-- peer/seq.go: the source of sequence numbers, shared by all goroutines. Each atomic operation is
-- one step of the goroutine that makes it.
pub mod Sequential
pub mod Race
use fim.Base.{
  ℕ, zero, suc, ◌+◌, ◌-◌, ◌/◌, ◌%◌, ◌^◌, ap, Bool, true, false, not, ◌==◌, if◌then◌else◌, fail,
  return,
}

-- `Seq = sequence{num: 1}`
abbrev pub initial : ℕ
initial = 1

-- math.MaxUint16
abbrev pub max_uint16 : ℕ
max_uint16 = 2 ^ 16 - 1

-- atomic.AddUint32(&s.num, 1): the new value.
abbrev pub add_one : ℕ → ℕ
add_one num = (num + 1) % 2 ^ 32

-- atomic.CompareAndSwapUint32(&num, old, new): what it stores, and whether it did.
abbrev pub compare_and_swap : ℕ → ℕ → ℕ → ℕ × Bool
compare_and_swap num old new = if num == old then (new, true) else (num, false)

-- Where a goroutine stands in Next: before the addition, before the compare-and-swap with the
-- value that the addition gave it, or returned.
pub data Pc : Type 0 where
  adding : Pc
  swapping : ℕ → Pc
  returned : ℕ → Pc

-- What Next does with the value that its addition gave.
abbrev after_add : ℕ → Pc
after_add next = if next == max_uint16 then swapping next else returned (next % 2 ^ 16)

-- A failed compare-and-swap calls Next again.
abbrev after_swap : ℕ × Bool → ℕ × Pc
after_swap (num, true) = (num, returned 1)
after_swap (num, false) = (num, adding)

-- One atomic step of a goroutine in Next, on the shared number.
pub next_step : ℕ → Pc → ℕ × Pc
next_step num adding = (add_one num, after_add (add_one num))
next_step num (swapping next) = after_swap (compare_and_swap num next 1)
next_step num (returned v) = (num, returned v)

-- Next on its own: its steps without another goroutine's in between. An addition and a swap, and
-- at most one more addition after them, are what the fuel of four steps is for.
abbrev run : ℕ → ℕ × Pc → ℕ × Pc
run zero s = s
run (suc fuel) (num, pc) = run fuel (next_step num pc)

pub next : ℕ → ℕ × Pc
unfolding next_step
next num = run 4 (num, adding)
