-- ===== src/Common/Words/Digits.antt =====
-- The recursion on binary digits that the native bit operations stand for.
use Prim.Native.Nat.{
  ℕ, zero, suc, ◌+◌, ◌*◌, ◌/◌, ◌%◌, ◌≤◌, min, max, bit_and, bit_or, digits, bit_and-bitwise,
  bit_or-bitwise,
}
use mathlib.Core.Path.{◌≡◌, refl}
use native.Mathlib.Omega.{arith}

module _ (base : ℕ → ℕ) (op : ℕ → ℕ → ℕ) where
  -- Two counts of steps that both reach the end of the first number give the same digits.
  enough_steps : (s t x y : ℕ) → x ≤ s → x ≤ t → digits base op s x y ≡ digits base op t x y
  enough_steps zero zero x y hs ht = refl
  enough_steps zero (suc t) zero y hs ht = refl
  enough_steps (suc s) zero zero y hs ht = refl
  enough_steps (suc s) (suc t) zero y hs ht = refl
  enough_steps zero (suc t) (suc x) y hs ht = absurd (omega arith)
  enough_steps (suc s) zero (suc x) y hs ht = absurd (omega arith)
  enough_steps (suc s) (suc t) (suc x) y hs ht =
      let halved = enough_steps s t (suc x / 2) (y / 2) (omega arith) (omega arith) in
      omega (arith, halved)

  -- The lowest digit of a number that is not 0, and the digits above it.
  first_digit :
      (x y : ℕ)
      → digits base op (suc x) (suc x) y
        ≡ digits base op (suc x / 2) (suc x / 2) (y / 2) * 2 + op (suc x % 2) (y % 2)
  first_digit x y =
      let halved = enough_steps x (suc x / 2) (suc x / 2) (y / 2) (omega arith) (omega arith) in
      omega (arith, halved)

pub bit_or_step : (x y : ℕ) → bit_or x y ≡ bit_or (x / 2) (y / 2) * 2 + max (x % 2) (y % 2)
bit_or_step zero y = omega (arith, bit_or-bitwise 0 y, bit_or-bitwise 0 (y / 2))
bit_or_step (suc x) y =
    rw (bit_or-bitwise (suc x) y, bit_or-bitwise (suc x / 2) (y / 2)) (first_digit (λ b. b) max x y)

pub bit_and_step : (x y : ℕ) → bit_and x y ≡ bit_and (x / 2) (y / 2) * 2 + min (x % 2) (y % 2)
bit_and_step zero y = omega (arith, bit_and-bitwise 0 y, bit_and-bitwise 0 (y / 2))
bit_and_step (suc x) y =
    rw (bit_and-bitwise (suc x) y, bit_and-bitwise (suc x / 2) (y / 2))
      (first_digit (λ b. 0) min x y)
