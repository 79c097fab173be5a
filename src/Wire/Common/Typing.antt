-- ===== src/Wire/Common/Typing.antt =====
-- What the readers give of bytes that are bytes, whichever they are.
use fim.Base.{
  ℕ, zero, suc, ◌^◌, ◌≤◌, ◌<◌, ◌≡◌, refl, inl, inr, [], ◌∷◌, arith, leb, leb→le, Bool-cases, length,
  get_or, take, drop, All, length-take, Outcome, done, fail, panic, Act, and_then, ◌>>=◌, return,
}
use fim.Wire.Buffer.{Bytes, IsByte, read, read_full}
use fim.Wire.Uint.{uint}
use fim.Wire.Common.{read_uint8, read_uint32, read_bytes, read_string}

-- A result of which `Q` holds, with bytes still to come; or an error, or a panic.
abbrev pub Gives : {A : Type 0} → (A → Type 0) → Outcome Bytes A → Type 0
Gives Q (done a rest) = Q a × All IsByte rest
Gives Q (fail e rest) = All IsByte rest
Gives Q panic = Unit {0}

-- A reader that gives such a result of any bytes.
abbrev pub Reads : {A : Type 0} → (A → Type 0) → Act Bytes A → Type 0
Reads Q m = (s : Bytes) → All IsByte s → Gives Q (m s)

and_then-Gives :
    {A B : Type 0} (Q : A → Type 0) (R : B → Type 0) (o : Outcome Bytes A) (f : A → Act Bytes B)
    → Gives Q o
    → ((a : A) → Q a → Reads R (f a))
    → Gives R (and_then o f)
and_then-Gives Q R (done a rest) f (q, bs) r = r a q rest bs
and_then-Gives Q R (fail e rest) f bs r = bs
and_then-Gives Q R panic f g r = tt

pub bind-Reads :
    {A B : Type 0} (Q : A → Type 0) (R : B → Type 0) (m : Act Bytes A) (f : A → Act Bytes B)
    → Reads Q m
    → ((a : A) → Q a → Reads R (f a))
    → Reads R (m >>= f)
bind-Reads Q R m f reads r s bs = and_then-Gives Q R (m s) f (reads s bs) r

pub return-Reads : {A : Type 0} (Q : A → Type 0) (a : A) → Q a → Reads Q (return a)
return-Reads Q a q s bs = (q, bs)

take-IsByte : (n : ℕ) (s : Bytes) → All IsByte s → All IsByte (take n s)
take-IsByte zero s bs = tt
take-IsByte (suc n) [] bs = tt
take-IsByte (suc n) (b ∷ s) (h, bs) = (h, take-IsByte n s bs)

drop-IsByte : (n : ℕ) (s : Bytes) → All IsByte s → All IsByte (drop n s)
drop-IsByte zero s bs = bs
drop-IsByte (suc n) [] bs = tt
drop-IsByte (suc n) (b ∷ s) (h, bs) = drop-IsByte n s bs

abbrev pub Below : ℕ → ℕ → Type 0
Below n m = m < n

-- A slice of a length, of bytes.
abbrev pub IsSlice : ℕ → Bytes → Type 0
IsSlice n p = (length p ≡ n) × All IsByte p

pub read_full-Reads : (n : ℕ) → Reads (IsSlice n) (read_full n)
unfolding read_full
read_full-Reads zero s bs = ((refl, tt), bs)
read_full-Reads (suc n) [] bs = tt
read_full-Reads (suc n) (b ∷ s) bs = elim (Bool-cases (leb (suc n) (length (b ∷ s)))) [
  | inl e ↦ rw e (
    (
      omega (arith, length-take (suc n) (b ∷ s), leb→le (suc n) (length (b ∷ s)) e),
      take-IsByte (suc n) (b ∷ s) bs,
    ),
    drop-IsByte (suc n) (b ∷ s) bs,
  )
  | inr e ↦ rw e tt
]

-- One Read gives at most as many bytes as the slice has.
pub read-Reads : (n : ℕ) → Reads (λ p. length p ≤ n) (read n)
unfolding read
read-Reads zero s bs = (omega arith, bs)
read-Reads (suc n) [] bs = tt
read-Reads (suc n) (b ∷ s) bs =
    (omega (arith, length-take (suc n) (b ∷ s)), drop-IsByte (suc n) (b ∷ s) bs)

uint-four : (p : Bytes) → IsSlice 4 p → uint p < 2 ^ 32
unfolding uint
uint-four (a ∷ b ∷ c ∷ d ∷ []) (len, (ha, (hb, (hc, (hd, _))))) = omega arith
uint-four p (len, _) = absurd (omega (arith, len))

get_or-first : (p : Bytes) → IsSlice 1 p → IsByte (get_or p 0 0)
get_or-first [] h = omega arith
get_or-first (b ∷ p) (len, (h, _)) = h

pub read_uint8-Reads : Reads IsByte read_uint8
unfolding read_uint8
read_uint8-Reads =
    bind-Reads (IsSlice 1) IsByte (read_full 1) _ (read_full-Reads 1)
      λ p slice. return-Reads IsByte (get_or p 0 0) (get_or-first p slice)

pub read_uint32-Reads : Reads (Below (2 ^ 32)) read_uint32
unfolding read_uint32
read_uint32-Reads =
    bind-Reads (IsSlice 4) (Below (2 ^ 32)) (read_full 4) _ (read_full-Reads 4)
      λ p slice. return-Reads (Below (2 ^ 32)) (uint p) (uint-four p slice)

abbrev pub IsShort : Bytes → Type 0
IsShort p = length p < 2 ^ 32

pub read_string-Reads : Reads IsShort read_string
unfolding read_string read_bytes
read_string-Reads =
    bind-Reads IsShort IsShort read_bytes _
      (bind-Reads (Below (2 ^ 32)) IsShort read_uint32 _ read_uint32-Reads
        λ n below s bs. weaken (read_full n s) (read_full-Reads n s bs) below)
      λ p short. return-Reads IsShort p short
  where
    weaken : {n : ℕ} (o : Outcome Bytes Bytes) → Gives (IsSlice n) o → n < 2 ^ 32 → Gives IsShort o
    weaken (done p rest) ((len, _), bs) below = (omega (arith, len), bs)
    weaken (fail e rest) bs below = bs
    weaken panic g below = tt
