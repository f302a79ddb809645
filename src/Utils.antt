-- ===== src/Utils.antt =====
-- fins/Utils.go: swapping the bytes and words of a register. The functions also write into the
-- slice that they are given: each returns that slice's bytes afterwards and its own result.
pub mod Swaps
pub mod Copies
use omron_hostlink_fins.Common.{Bool, List, Result, [], false, if◌then◌else◌, index, length}
use omron_hostlink_fins.Common.{ltb, not, ok, put, replicate, true, ℕ, ◌&&◌, ◌>>=◌, ◌∷◌}

-- The builtin `copy(dst, src)`: the bytes of `dst` afterwards.
abbrev pub copy : List ℕ → List ℕ → List ℕ
copy [] src = []
copy (d ∷ dst) [] = d ∷ dst
copy (d ∷ dst) (s ∷ src) = s ∷ copy dst src

-- `new[i] = old[j]`
abbrev move : List ℕ → ℕ → List ℕ → ℕ → Result (List ℕ)
move new i old j = do x ← index old j; put new i x

unfoldable pub swap16_bit_data_bytes : List ℕ → Bool → Result (List ℕ × List ℕ)
swap16_bit_data_bytes data_bytes is_byte_swap =
    if not is_byte_swap
    then ok (data_bytes, data_bytes)
    else if ltb (length data_bytes) 2
    then ok (data_bytes, data_bytes)
    else (do
      n0 ← move (replicate (length data_bytes) 0) 0 data_bytes 1
      n1 ← move n0 1 data_bytes 0
      ok (copy data_bytes n1, n1))

-- The two `if` blocks of `swap32BitDataBytes`, on the pair of the given slice and the new one.
unfoldable pub byte_swap_block : Bool → List ℕ × List ℕ → Result (List ℕ × List ℕ)
byte_swap_block false (data_bytes, new) = ok (data_bytes, new)
byte_swap_block true (data_bytes, new) = do
  n0 ← move new 0 data_bytes 1
  n1 ← move n0 1 data_bytes 0
  n2 ← move n1 2 data_bytes 3
  n3 ← move n2 3 data_bytes 2
  ok (copy data_bytes n3, n3)

unfoldable pub word_swap_block : Bool → List ℕ × List ℕ → Result (List ℕ × List ℕ)
word_swap_block false (data_bytes, new) = ok (data_bytes, new)
word_swap_block true (data_bytes, new) = do
  n0 ← move new 0 data_bytes 2
  n1 ← move n0 1 data_bytes 3
  n2 ← move n1 2 data_bytes 0
  n3 ← move n2 3 data_bytes 1
  ok (data_bytes, n3)

unfoldable pub swap32_bit_data_bytes : List ℕ → Bool → Bool → Result (List ℕ × List ℕ)
unfolding byte_swap_block word_swap_block
swap32_bit_data_bytes data_bytes is_byte_swap is_word_swap =
    if not is_byte_swap && not is_word_swap
    then ok (data_bytes, data_bytes)
    else if ltb (length data_bytes) 4
    then ok (data_bytes, data_bytes)
    else (do
      swapped ← byte_swap_block is_byte_swap (data_bytes, replicate (length data_bytes) 0)
      word_swap_block is_word_swap swapped)
