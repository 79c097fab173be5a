-- ===== src/Wire/Sid/Decimal.antt =====
-- What the reader of digits makes of a number in decimal.
use fim.Base.{
  ℕ, zero, suc, ◌+◌, ◌*◌, ◌/◌, ◌%◌, ◌^◌, ◌≤◌, ◌<◌, ◌≡◌, ap, ◌∙◌, inl, inr, some, [], ◌∷◌, arith,
  ltb, ltb→lt, le→leb, Bool-cases, All,
}
use fim.Base.Decimal.{itoa, itoa_loop}
use fim.Wire.Buffer.{Bytes}
use fim.Wire.Sid.{digits_loop}

-- 10 ^ k
abbrev pub ten_to : ℕ → ℕ
ten_to zero = 1
ten_to (suc k) = 10 * ten_to k

pub digits_loop-digit :
    (acc d : ℕ) (out : Bytes)
    → d < 10
    → digits_loop acc ((b'0' + d) ∷ out) ≡ digits_loop (acc * 10 + d) out
unfolding digits_loop
digits_loop-digit acc d out h =
    rw (le→leb b'0' (b'0' + d) (omega arith), le→leb (b'0' + d) b'9' (omega arith))
      (ap (λ i. digits_loop (acc * 10 + i) out) (omega arith))

pub digits_loop-itoa_loop :
    (k n : ℕ) (out : Bytes) → n < ten_to k → digits_loop 0 (itoa_loop k n out) ≡ digits_loop n out
unfolding itoa_loop
digits_loop-itoa_loop zero n out h = ap (λ i. digits_loop i out) (omega arith)
digits_loop-itoa_loop (suc k) n out h = elim (Bool-cases (ltb n 10)) [
  | inl small ↦
      rw small
        (digits_loop-digit 0 n out (ltb→lt n 10 small) ∙ ap (λ i. digits_loop i out) (omega arith))
  | inr big ↦ rw big (
      digits_loop-itoa_loop k (n / 10) ((b'0' + n % 10) ∷ out) (omega arith)
      ∙ digits_loop-digit (n / 10) (n % 10) out (omega arith)
      ∙ ap (λ i. digits_loop i out) (omega arith))
]

pub digits_loop-itoa : (n : ℕ) → n < 2 ^ 64 → digits_loop 0 (itoa n) ≡ some n
unfolding itoa digits_loop
digits_loop-itoa n h = digits_loop-itoa_loop 20 n [] (omega (arith, h))

abbrev pub IsDigit : ℕ → Type 0
IsDigit c = (b'0' ≤ c) × (c ≤ b'9')

itoa_loop-IsDigit : (k n : ℕ) (out : Bytes) → All IsDigit out → All IsDigit (itoa_loop k n out)
unfolding itoa_loop
itoa_loop-IsDigit zero n out ds = ds
itoa_loop-IsDigit (suc k) n out ds = elim (Bool-cases (ltb n 10)) [
  | inl small ↦ rw small ((omega arith, omega (arith, ltb→lt n 10 small)), ds)
  | inr big ↦
      rw big (itoa_loop-IsDigit k (n / 10) ((b'0' + n % 10) ∷ out) ((omega arith, omega arith), ds))
]

pub itoa-IsDigit : (n : ℕ) → All IsDigit (itoa n)
unfolding itoa
itoa-IsDigit n = itoa_loop-IsDigit 20 n [] tt
