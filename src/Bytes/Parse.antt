-- ===== src/Bytes/Parse.antt =====
-- fins/bytes.go: the Parse functions. The list is what the slice sees; a short one panics.
-- A float is the IEEE pattern of its bits, so `math.Float32frombits` changes nothing.
use omron_hostlink_fins.Common.{List, Result, bit_or, index, ok, ℕ, ◌+◌, ◌>>=◌}
use omron_hostlink_fins.Common.Words.{shl, to_uint16, to_uint32}

unfoldable pub parse_uint64 : List ℕ → Result ℕ
parse_uint64 b = do
  b0 ← index b 0
  b1 ← index b 1
  b2 ← index b 2
  b3 ← index b 3
  b4 ← index b 4
  b5 ← index b 5
  b6 ← index b 6
  b7 ← index b 7
  ok (
      bit_or
        (bit_or
          (bit_or
            (bit_or
              (bit_or (bit_or (bit_or (shl 64 b0 56) (shl 64 b1 48)) (shl 64 b2 40)) (shl 64 b3 32))
              (shl 64 b4 24))
            (shl 64 b5 16))
          (shl 64 b6 8))
        b7)

unfoldable pub parse_uint64_little_endian : List ℕ → Result ℕ
parse_uint64_little_endian b = do
  b7 ← index b 7
  b6 ← index b 6
  b5 ← index b 5
  b4 ← index b 4
  b3 ← index b 3
  b2 ← index b 2
  b1 ← index b 1
  b0 ← index b 0
  ok (
      bit_or
        (bit_or
          (bit_or
            (bit_or
              (bit_or (bit_or (bit_or (shl 64 b7 56) (shl 64 b6 48)) (shl 64 b5 40)) (shl 64 b4 32))
              (shl 64 b3 24))
            (shl 64 b2 16))
          (shl 64 b1 8))
        b0)

unfoldable pub parse_uint32 : List ℕ → Result ℕ
parse_uint32 b = do
  b0 ← index b 0
  b1 ← index b 1
  b2 ← index b 2
  b3 ← index b 3
  ok (to_uint32 (shl 32 b0 24 + shl 32 b1 16 + shl 32 b2 8 + b3))

unfoldable pub parse_uint32_little_endian : List ℕ → Result ℕ
parse_uint32_little_endian b = do
  b3 ← index b 3
  b2 ← index b 2
  b1 ← index b 1
  b0 ← index b 0
  ok (to_uint32 (shl 32 b3 24 + shl 32 b2 16 + shl 32 b1 8 + b0))

unfoldable pub parse_uint16 : List ℕ → Result ℕ
parse_uint16 b = do b0 ← index b 0; b1 ← index b 1; ok (to_uint16 (shl 16 b0 8 + b1))

unfoldable pub parse_uint16_little_endian : List ℕ → Result ℕ
parse_uint16_little_endian b = do b1 ← index b 1; b0 ← index b 0; ok (to_uint16 (shl 16 b1 8 + b0))

-- math.Float32frombits and math.Float64frombits
abbrev from_bits : ℕ → ℕ
from_bits v = v

unfoldable pub parse_float32 : List ℕ → Result ℕ
parse_float32 b = do val ← parse_uint32 b; ok (from_bits val)

unfoldable pub parse_float32_little_endian : List ℕ → Result ℕ
parse_float32_little_endian b = do val ← parse_uint32_little_endian b; ok (from_bits val)

unfoldable pub parse_float64 : List ℕ → Result ℕ
parse_float64 b = do val ← parse_uint64 b; ok (from_bits val)

unfoldable pub parse_float64_little_endian : List ℕ → Result ℕ
parse_float64_little_endian b = do val ← parse_uint64_little_endian b; ok (from_bits val)
