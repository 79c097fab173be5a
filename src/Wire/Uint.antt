-- ===== src/Wire/Uint.antt =====
-- encoding/binary's big-endian integers of 1, 2, 4 and 8 bytes.
use fim.Base.{
  ℕ, zero, suc, ◌+◌, ◌*◌, ◌/◌, ◌%◌, ◌^◌, ◌<◌, ◌≡◌, refl, ap, [], ◌∷◌, arith, length, All,
}
use fim.Wire.Buffer.{Bytes, IsByte}

-- PutUint of `n` bytes: the value modulo 2^(8n), highest byte first.
unfoldable pub put_uint : ℕ → ℕ → Bytes
put_uint zero v = []
put_uint (suc n) v = (v / 256 ^ n % 256) ∷ put_uint n v

uint_loop : ℕ → Bytes → ℕ
uint_loop acc [] = acc
uint_loop acc (b ∷ bs) = uint_loop (acc * 256 + b) bs

-- Uint16, Uint32 and Uint64 of a slice of that many bytes.
unfoldable pub uint : Bytes → ℕ
unfolding uint_loop
uint = uint_loop 0

pub length-put_uint : (n v : ℕ) → length (put_uint n v) ≡ n
unfolding put_uint
length-put_uint zero v = refl
length-put_uint (suc n) v = ap suc (length-put_uint n v)

pub put_uint-IsByte : (n v : ℕ) → All IsByte (put_uint n v)
unfolding put_uint
put_uint-IsByte zero v = tt
put_uint-IsByte (suc n) v = (omega arith, put_uint-IsByte n v)

pub uint-put_uint8 : (v : ℕ) → v < 2 ^ 8 → uint (put_uint 1 v) ≡ v
unfolding uint put_uint
uint-put_uint8 v h = omega arith

pub uint-put_uint16 : (v : ℕ) → v < 2 ^ 16 → uint (put_uint 2 v) ≡ v
unfolding uint put_uint
uint-put_uint16 v h = omega arith

pub uint-put_uint32 : (v : ℕ) → v < 2 ^ 32 → uint (put_uint 4 v) ≡ v
unfolding uint put_uint
uint-put_uint32 v h = omega arith

pub uint-put_uint64 : (v : ℕ) → v < 2 ^ 64 → uint (put_uint 8 v) ≡ v
unfolding uint put_uint
uint-put_uint64 v h = omega arith
