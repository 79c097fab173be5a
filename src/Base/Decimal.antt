-- ===== src/Base/Decimal.antt =====
-- Numbers in decimal, as bytes.
use Prim.Native.Nat.{ℕ, zero, suc, ◌+◌, ◌/◌, ◌%◌}
use mathlib.Core.List.{List, [], ◌∷◌}
use fim.Base.Tests.{ltb, if◌then◌else◌}

-- strconv.Itoa of a number that is not negative; a number below 2 ^ 64 has at most 20 digits.
unfoldable pub itoa_loop : ℕ → ℕ → List ℕ → List ℕ
itoa_loop zero n out = out
itoa_loop (suc fuel) n out =
    let rest = itoa_loop fuel (n / 10) ((b'0' + n % 10) ∷ out) in
    if ltb n 10 then (b'0' + n) ∷ out else rest

unfoldable pub itoa : ℕ → List ℕ
unfolding itoa_loop
itoa n = itoa_loop 20 n []
