-- ===== src/Wire/Common/RoundTrip.antt =====
-- wire/common.go: what is written on a writer is read back, and what follows it is left alone.
use fim.Base.{ℕ, ◌^◌, ◌<◌, ◌≡◌, refl, [], ◌∷◌, ◌++◌, length, done}
use fim.Wire.Buffer.{Bytes, read_full, read_full-append}
use fim.Wire.Uint.{put_uint, length-put_uint, uint-put_uint16, uint-put_uint32, uint-put_uint64}
use fim.Wire.Common.{read_uint8, read_uint16, read_uint32, read_uint64, read_bytes, read_string}

-- A read of exactly the bytes in front.
pub read_full-front :
    (n : ℕ) (p rest : Bytes) → length p ≡ n → read_full n (p ++ rest) ≡ done p rest
read_full-front n p rest h = rw (← h) (read_full-append p rest)

pub read_uint8-head : (v : ℕ) (rest : Bytes) → read_uint8 (v ∷ rest) ≡ done v rest
unfolding read_uint8
read_uint8-head v rest = rw (read_full-front 1 (v ∷ []) rest refl)

pub read_uint16-put :
    (v : ℕ) (rest : Bytes) → v < 2 ^ 16 → read_uint16 (put_uint 2 v ++ rest) ≡ done v rest
unfolding read_uint16
read_uint16-put v rest h =
    rw (read_full-front 2 (put_uint 2 v) rest (length-put_uint 2 v)) (rw (uint-put_uint16 v h))

pub read_uint32-put :
    (v : ℕ) (rest : Bytes) → v < 2 ^ 32 → read_uint32 (put_uint 4 v ++ rest) ≡ done v rest
unfolding read_uint32
read_uint32-put v rest h =
    rw (read_full-front 4 (put_uint 4 v) rest (length-put_uint 4 v)) (rw (uint-put_uint32 v h))

pub read_uint64-put :
    (v : ℕ) (rest : Bytes) → v < 2 ^ 64 → read_uint64 (put_uint 8 v ++ rest) ≡ done v rest
unfolding read_uint64
read_uint64-put v rest h =
    rw (read_full-front 8 (put_uint 8 v) rest (length-put_uint 8 v)) (rw (uint-put_uint64 v h))

-- The bytes of a length-prefixed slice.
abbrev pub prefixed : Bytes → Bytes
prefixed buf = put_uint 4 (length buf) ++ buf

pub read_bytes-prefixed :
    (buf rest : Bytes)
    → length buf < 2 ^ 32
    → read_bytes (put_uint 4 (length buf) ++ (buf ++ rest)) ≡ done buf rest
unfolding read_bytes
read_bytes-prefixed buf rest h =
    rw (read_uint32-put (length buf) (buf ++ rest) h) (read_full-append buf rest)

pub read_string-prefixed :
    (buf rest : Bytes)
    → length buf < 2 ^ 32
    → read_string (put_uint 4 (length buf) ++ (buf ++ rest)) ≡ done buf rest
unfolding read_string
read_string-prefixed buf rest h = rw (read_bytes-prefixed buf rest h)
