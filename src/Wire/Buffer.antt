-- ===== src/Wire/Buffer.antt =====
-- What the code uses of the standard library's bytes and io packages: bytes.Buffer, io.ReadFull
-- and io.Writer. A reader's state is the bytes still to come; behind the last of them is io.EOF.
use fim.Base.{
  ℕ, zero, suc, ◌+◌, ◌≤◌, ◌<◌, ◌≡◌, refl, List, [], ◌∷◌, ◌++◌, arith, leb, if◌then◌else◌, le→leb,
  length, take, drop, length-append, length-take, length-drop, take-length_append,
  drop-length_append, drop-all, take-all, eof, unexpected_eof, Outcome, done, fail, panic, Act,
  Writer,
}

abbrev pub Bytes : Type 0
Bytes = List ℕ

abbrev pub IsByte : ℕ → Type 0
IsByte b = b < 256

-- Read of a bytes.Buffer into a slice of `n` bytes: it gives what is there, up to `n`, and io.EOF
-- only from an empty buffer.
unfoldable pub read : ℕ → Act Bytes Bytes
read zero bs = done [] bs
read (suc n) [] = fail eof []
read (suc n) (b ∷ bs) = done (take (suc n) (b ∷ bs)) (drop (suc n) (b ∷ bs))

-- io.ReadFull into a slice of `n` bytes: all `n`, or an error with the reader used up.
unfoldable pub read_full : ℕ → Act Bytes Bytes
read_full zero bs = done [] bs
read_full (suc n) [] = fail eof []
read_full (suc n) (b ∷ bs) =
    if leb (suc n) (length (b ∷ bs))
    then done (take (suc n) (b ∷ bs)) (drop (suc n) (b ∷ bs))
    else fail unexpected_eof []

pub read_full-append : (p rest : Bytes) → read_full (length p) (p ++ rest) ≡ done p rest
unfolding read_full
read_full-append [] rest = refl
read_full-append (b ∷ p) rest =
    rw (le→leb (suc (length p)) (suc (length (p ++ rest))) (omega (arith, length-append p rest)))
      (rw (take-length_append p rest, drop-length_append p rest))

pub read-append : (p rest : Bytes) → read (length p) (p ++ rest) ≡ done p rest
unfolding read
read-append [] rest = refl
read-append (b ∷ p) rest = rw (take-length_append p rest, drop-length_append p rest)

-- The call `w.Write(p)`.
abbrev pub write : {W : Type 0} ⦃w : Writer W⦄ → Bytes → Act W (Unit {0})
write ⦃w⦄ = w.write

-- A bytes.Buffer takes every slice; the list is what it holds.
instance abbrev pub buffer : Writer Bytes
buffer = record { write = λ p held. done tt (held ++ p) }

-- A read that asks for more than is there gets what is there.
pub read-short : (n : ℕ) (p : Bytes) → 0 < length p → length p ≤ n → read n p ≡ done p []
unfolding read
read-short n [] h le = absurd (omega arith)
read-short zero (b ∷ p) h le = absurd (omega arith)
read-short (suc n) (b ∷ p) h le = rw (take-all n p (omega arith), drop-all n p (omega arith))

-- A successful ReadFull of `n` bytes leaves `n` bytes fewer.
abbrev pub Leaves : ℕ → Bytes → Outcome Bytes Bytes → Type 0
Leaves n s (done p rest) = (length p ≡ n) × (length rest + n ≡ length s)
Leaves n s (fail e rest) = rest ≡ []
Leaves n s panic = ⊥

pub read_full-Leaves : (n : ℕ) (s : Bytes) → Leaves n s (read_full n s)
unfolding read_full
read_full-Leaves zero s = (refl, omega arith)
read_full-Leaves (suc n) [] = refl
read_full-Leaves (suc n) (b ∷ s) = ground (arith, length-drop n s, length-take n s)
