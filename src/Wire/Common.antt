-- ===== src/Wire/Common.antt =====
-- wire/common.go: integers, strings and byte slices on a reader and a writer.
pub mod RoundTrip
pub mod Sequence
pub mod Typing
use fim.Base.{ℕ, ◌%◌, ◌^◌, [], ◌∷◌, length, Act, ◌>>=◌, ◌>>◌, return, Writer, get_or}
use fim.Wire.Buffer.{Bytes, read_full, write}
use fim.Wire.Uint.{uint, put_uint}

pub read_uint8 : Act Bytes ℕ
read_uint8 = do bytes ← read_full 1; return (get_or bytes 0 0)

pub read_uint32 : Act Bytes ℕ
read_uint32 = do bytes ← read_full 4; return (uint bytes)

pub read_uint16 : Act Bytes ℕ
read_uint16 = do bytes ← read_full 2; return (uint bytes)

pub read_uint64 : Act Bytes ℕ
read_uint64 = do bytes ← read_full 8; return (uint bytes)

pub read_bytes : Act Bytes Bytes
read_bytes = do buf_len ← read_uint32; read_full buf_len

-- A Go string is its bytes.
pub read_string : Act Bytes Bytes
read_string = do buf ← read_bytes; return buf

unfoldable pub read_fixed_bytes : ℕ → Act Bytes Bytes
read_fixed_bytes len = read_full len

module _ {W : Type 0} ⦃w : Writer W⦄ where
  unfoldable pub write_uint8 : ℕ → Act W (Unit {0})
  write_uint8 val = write (val ∷ [])

  unfoldable pub write_uint16 : ℕ → Act W (Unit {0})
  write_uint16 val = write (put_uint 2 val)

  unfoldable pub write_uint32 : ℕ → Act W (Unit {0})
  write_uint32 val = write (put_uint 4 val)

  unfoldable pub write_uint64 : ℕ → Act W (Unit {0})
  write_uint64 val = write (put_uint 8 val)

  -- `uint32(bufLen)` keeps the low 32 bits of the length.
  unfoldable pub write_bytes : Bytes → Act W (Unit {0})
  write_bytes buf = do write_uint32 (length buf % 2 ^ 32); write buf

  unfoldable pub write_string : Bytes → Act W (Unit {0})
  write_string str = write_bytes str
