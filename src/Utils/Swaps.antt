-- ===== src/Utils/Swaps.antt =====
-- fins/Utils.go: what the swaps do to a register of two or four bytes.
use omron_hostlink_fins.Common.{Bool, List, [], arith, false, if◌then◌else◌, length, ok, refl}
use omron_hostlink_fins.Common.{true, ℕ, ◌>>=◌, ◌∷◌, ◌≡◌}
use omron_hostlink_fins.Utils.{swap16_bit_data_bytes, swap32_bit_data_bytes}

-- The bytes of a 32-bit register after a byte swap and after a word swap.
abbrev pub byte_swapped : List ℕ → List ℕ
byte_swapped (a ∷ b ∷ c ∷ d ∷ rest) = b ∷ a ∷ d ∷ c ∷ rest
byte_swapped xs = xs

abbrev pub word_swapped : List ℕ → List ℕ
word_swapped (a ∷ b ∷ c ∷ d ∷ rest) = c ∷ d ∷ a ∷ b ∷ rest
word_swapped xs = xs

-- On four bytes the result is the byte swap, then the word swap, as the flags ask; of the two only
-- the byte swap is also left behind in the slice that was passed in.
pub swap32_bit_data_bytes_lem :
    (xs : List ℕ) (bs ws : Bool)
    → length xs ≡ 4
    → swap32_bit_data_bytes xs bs ws
      ≡ ok (
          let once = (if bs then byte_swapped xs else xs) in
          (once, (if ws then word_swapped once else once)))
unfolding swap32_bit_data_bytes
swap32_bit_data_bytes_lem (a ∷ b ∷ c ∷ d ∷ []) false false h = refl
swap32_bit_data_bytes_lem (a ∷ b ∷ c ∷ d ∷ []) false true h = refl
swap32_bit_data_bytes_lem (a ∷ b ∷ c ∷ d ∷ []) true false h = refl
swap32_bit_data_bytes_lem (a ∷ b ∷ c ∷ d ∷ []) true true h = refl
swap32_bit_data_bytes_lem _ bs ws h = absurd (omega arith)

-- Swapping four bytes twice with the same flags gives them back.
pub swap32-swap32 :
    (xs : List ℕ) (bs ws : Bool)
    → length xs ≡ 4
    → (do
      once ← swap32_bit_data_bytes xs bs ws
      twice ← swap32_bit_data_bytes once.1 bs ws
      ok twice.1)
      ≡ ok xs
unfolding swap32_bit_data_bytes
swap32-swap32 (a ∷ b ∷ c ∷ d ∷ []) false false h = refl
swap32-swap32 (a ∷ b ∷ c ∷ d ∷ []) false true h = refl
swap32-swap32 (a ∷ b ∷ c ∷ d ∷ []) true false h = refl
swap32-swap32 (a ∷ b ∷ c ∷ d ∷ []) true true h = refl
swap32-swap32 _ bs ws h = absurd (omega arith)

-- On two bytes the 16-bit swap exchanges them in the slice and in the result alike, or does nothing.
pub swap16_bit_data_bytes_lem :
    (a b : ℕ) (bs : Bool)
    → swap16_bit_data_bytes (a ∷ b ∷ []) bs
      ≡ ok (let out = (if bs then b ∷ a ∷ [] else a ∷ b ∷ []) in (out, out))
unfolding swap16_bit_data_bytes
swap16_bit_data_bytes_lem a b false = refl
swap16_bit_data_bytes_lem a b true = refl
