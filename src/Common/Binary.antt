-- ===== src/Common/Binary.antt =====
-- The package encoding/binary of Go's standard library, as far as the source uses it: fixed-width
-- integers in either byte order. Reading from fewer bytes than the width panics.
use Prim.Native.Nat.{ℕ, ◌+◌, ◌*◌, ◌^◌}
use mathlib.Core.Path.{◌≡◌, ap}
use mathlib.Core.List.{List, [], ◌∷◌, ◌++◌}
use native.Mathlib.Omega.{arith}
use omron_hostlink_fins.Common.Outcomes.{Result, ok, panic}
use omron_hostlink_fins.Common.Words.{to_byte, shr, IsUint16, IsUint32}

pub data ByteOrder : Type 0 where
  big_endian little_endian : ByteOrder

unfoldable pub get_uint16 : ByteOrder → List ℕ → Result ℕ
get_uint16 big_endian (a ∷ b ∷ rest) = ok (a * 2 ^ 8 + b)
get_uint16 little_endian (a ∷ b ∷ rest) = ok (b * 2 ^ 8 + a)
get_uint16 order _ = panic

unfoldable pub get_uint32 : ByteOrder → List ℕ → Result ℕ
get_uint32 big_endian (a ∷ b ∷ c ∷ d ∷ rest) = ok (a * 2 ^ 24 + b * 2 ^ 16 + c * 2 ^ 8 + d)
get_uint32 little_endian (a ∷ b ∷ c ∷ d ∷ rest) = ok (d * 2 ^ 24 + c * 2 ^ 16 + b * 2 ^ 8 + a)
get_uint32 order _ = panic

-- The bytes that `PutUint16` and `PutUint32` write.
abbrev pub uint16_bytes : ByteOrder → ℕ → List ℕ
uint16_bytes big_endian v = to_byte (shr v 8) ∷ to_byte v ∷ []
uint16_bytes little_endian v = to_byte v ∷ to_byte (shr v 8) ∷ []

abbrev pub uint32_bytes : ByteOrder → ℕ → List ℕ
uint32_bytes big_endian v =
    to_byte (shr v 24) ∷ to_byte (shr v 16) ∷ to_byte (shr v 8) ∷ to_byte v ∷ []
uint32_bytes little_endian v =
    to_byte v ∷ to_byte (shr v 8) ∷ to_byte (shr v 16) ∷ to_byte (shr v 24) ∷ []

pub get_uint16-bytes :
    (o : ByteOrder) (v : ℕ) (rest : List ℕ)
    → IsUint16 v
    → get_uint16 o (uint16_bytes o v ++ rest) ≡ ok v
unfolding get_uint16
get_uint16-bytes big_endian v rest h = ap ok (omega arith)
get_uint16-bytes little_endian v rest h = ap ok (omega arith)

pub get_uint32-bytes :
    (o : ByteOrder) (v : ℕ) (rest : List ℕ)
    → IsUint32 v
    → get_uint32 o (uint32_bytes o v ++ rest) ≡ ok v
unfolding get_uint32
get_uint32-bytes big_endian v rest h = ap ok (omega arith)
get_uint32-bytes little_endian v rest h = ap ok (omega arith)
