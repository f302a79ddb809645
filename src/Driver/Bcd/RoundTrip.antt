-- ===== src/Driver/Bcd/RoundTrip.antt =====
-- fins/driver.go: `decodeBCD` reads what `encodeBCD` writes; an overflow that it does not notice.
use mathlib.Core.Logic.{dif_neg, dif_pos}
use mathlib.Core.WellFounded.{Acc}
use native.Mathlib.Bridge.{le_prop}
use native.Mathlib.Decide.{dec_lt}
use native.Mathlib.Nat.{pow-suc}
use omron_hostlink_fins.Common.{List, Result, [], ap, arith, drop-replicate}
use omron_hostlink_fins.Common.{drop-set-replicate, false, inl, inr, length, length-replicate}
use omron_hostlink_fins.Common.{length-set, ok, put-lt, refl, replicate, set, suc, zero, ℕ}
use omron_hostlink_fins.Common.{◌%◌, ◌*◌, ◌++◌, ◌+◌, ◌-◌, ◌/◌, ◌<◌, ◌==◌, ◌>>=◌, ◌^◌, ◌∙◌, ◌∷◌}
use omron_hostlink_fins.Common.{◌≡◌, ◌≤◌, ◌⊎◌}
use omron_hostlink_fins.Common.Order.{lt_wf}
use omron_hostlink_fins.Common.Words.{IsUint64, to_byte}
use omron_hostlink_fins.Driver.Bcd.{count_digits, decode_bcd, decode_loop, encode_bcd}
use omron_hostlink_fins.Driver.Bcd.{encode_digits, fill_pairs, pack_nibbles}
use omron_hostlink_fins.Driver.Bcd.{times_ten_plus_catching_overflow}
use omron_hostlink_fins.Driver.Bcd.Pairs.{decode_loop-pairs, fill_pairs_lem, pairs}
use omron_hostlink_fins.Driver.Bcd.Steps.{digit_pair, nibbles, pack_nibbles_lem, times_ten_ok}
use omron_hostlink_fins.Driver.Bcd.Steps.{times_ten_wraps}

count_digits_lem :
    (x : ℕ) (w : Acc ◌<◌ x) (n : ℕ) → (m : ℕ) × (count_digits x w n ≡ n + m) × (x < 10 ^ m)
unfolding count_digits
count_digits_lem x (Acc.intro _ smaller) n = elim (dec_lt 0 x) [
  | yes h ↦
      let (m, e, lt) = count_digits_lem (x / 10) (smaller (x / 10) (omega arith)) (n + 1) in
      (suc m, dif_pos (dec_lt 0 x) le_prop h _ _ ∙ e ∙ omega arith, omega (arith, pow-suc 10 m))
  | no h ↦ (0, dif_neg (dec_lt 0 x) h _ _ ∙ omega arith, omega arith)
]

hundreds : (k : ℕ) → 10 ^ (k + k) ≡ 100 ^ k
hundreds zero = refl
hundreds (suc k) =
    let e : suc k + suc k ≡ suc (suc (k + k)) = omega arith in
    rw e (omega (arith, pow-suc 10 (suc (k + k)), pow-suc 10 (k + k), pow-suc 100 k, hundreds k))

decode_loop_odd : (x : ℕ) → x < 2 ^ 64 → decode_loop ((x % 10 * 16 + 15) ∷ []) (x / 10) ≡ ok x
unfolding decode_loop
decode_loop_odd x h = ground (arith, nibbles (x % 10) 15, times_ten_ok (x / 10) (x % 10))

-- With `2 * k` digits every byte is a pair.
encode_digits_even :
    (x k : ℕ) → x < 100 ^ k → x < 2 ^ 64 → (encode_digits x (k + k) >>= decode_bcd) ≡ ok x
unfolding encode_digits decode_bcd
encode_digits_even x k h fits =
    let even : (k + k) % 2 ≡ 0 = omega arith in
    let half : (k + k) / 2 ≡ k = omega arith in
    let room : (k + k + 1) / 2 ≡ k = omega arith in
    let full : k ≤ length (replicate {A = ℕ} k 0) = omega (arith, length-replicate {A = ℕ} k 0) in
    rw (even, half, room, fill_pairs_lem k x (replicate k 0) full, drop-replicate {A = ℕ} k 0)
      (decode_loop-pairs k x [] h fits ∙ unfold decode_loop in refl)

-- With one digit more the last byte holds it and the end mark.
encode_digits_odd :
    (x k : ℕ)
    → x < 10 ^ suc (k + k)
    → x < 2 ^ 64
    → (encode_digits x (suc (k + k)) >>= decode_bcd) ≡ ok x
unfolding encode_digits decode_bcd
encode_digits_odd x k h fits =
    let odd : suc (k + k) % 2 ≡ 1 = omega arith in
    let half : (suc (k + k) - 1) / 2 ≡ k = omega arith in
    let room : (suc (k + k) + 1) / 2 ≡ suc k = omega arith in
    let v = x % 10 * 16 + 15 in
    let mark : pack_nibbles (to_byte (x % 10)) 0x0f ≡ v =
      pack_nibbles_lem _ _ (omega arith) (omega arith) ∙ omega arith in
    let last = set (replicate {A = ℕ} (suc k) 0) k v in
    let size : length last ≡ suc k =
      length-set (replicate {A = ℕ} (suc k) 0) k v ∙ length-replicate {A = ℕ} (suc k) 0 in
    let inside : k < length (replicate {A = ℕ} (suc k) 0) =
      omega (arith, length-replicate {A = ℕ} (suc k) 0) in
    let smaller : x / 10 < 100 ^ k = omega (arith, pow-suc 10 (k + k), hundreds k) in
    let stored =
      put-lt (replicate {A = ℕ} (suc k) 0) k (pack_nibbles (to_byte (x % 10)) 0x0f) inside in
    rw (odd, half, room)
      (ap (λ (r : Result (List ℕ)). (r >>= fill_pairs k (x / 10)) >>= decode_bcd)
          (stored ∙ ap (λ (w : ℕ). ok (set (replicate {A = ℕ} (suc k) 0) k w)) mark)
        ∙ rw (fill_pairs_lem k (x / 10) last (omega arith), drop-set-replicate {A = ℕ} k 0 v)
            (decode_loop-pairs k (x / 10) (v ∷ []) smaller (omega arith) ∙ decode_loop_odd x fits))

half_cases : (m : ℕ) → (k : ℕ) × ((m ≡ k + k) ⊎ (m ≡ suc (k + k)))
half_cases m = elim (dec_lt 0 (m % 2)) [
  | yes h ↦ (m / 2, inr (omega arith))
  | no h ↦ (m / 2, inl (omega arith))
]

encode_digits_lem : (x m : ℕ) → x < 10 ^ m → x < 2 ^ 64 → (encode_digits x m >>= decode_bcd) ≡ ok x
encode_digits_lem x m h fits =
    let (k, halves) = half_cases m in
    elim halves [
      | inl e ↦
          let h' : x < 10 ^ (k + k) = rw e at h in
          rw e (encode_digits_even x k (rw (hundreds k) at h') fits)
      | inr e ↦ rw e (encode_digits_odd x k (rw e at h) fits)
    ]

zero_digits : decode_bcd (0x0f ∷ []) ≡ ok 0
unfolding decode_bcd decode_loop times_ten_plus_catching_overflow
zero_digits = refl

pairs_ten : (v : ℕ) → pairs 10 v ≡ pairs 9 (v / 100) ++ (digit_pair v ∷ [])
unfolding pairs
pairs_ten v = refl

decode_loop_wraps :
    (v : ℕ)
    → 2 ^ 65 + 8 ≤ v
    → v + 10 < 2 ^ 65 + 2 ^ 64
    → decode_loop (digit_pair v ∷ []) (v / 100) ≡ ok (v - 2 ^ 65)
unfolding decode_loop
decode_loop_wraps v lo hi = ground (
  arith,
  nibbles (v / 10 % 10) (v % 10),
  times_ten_ok (v / 100) (v / 10 % 10),
  times_ten_wraps (v / 10) (v % 10),
)

-- `decodeBCD` returns every uint64 from what `encodeBCD` writes for it; neither fails or panics.
pub decode_bcd-encode_bcd : (x : ℕ) → IsUint64 x → (encode_bcd x >>= decode_bcd) ≡ ok x
unfolding encode_bcd
decode_bcd-encode_bcd zero fits = zero_digits
decode_bcd-encode_bcd (suc y) fits =
    let (m, e, lt) = count_digits_lem (suc y) (lt_wf.apply (suc y)) 0 in
    let n : count_digits (suc y) (lt_wf.apply (suc y)) 0 ≡ m = e ∙ omega arith in
    let more : (suc y == 0) ≡ false = ground arith in
    rw (more, n) (encode_digits_lem (suc y) m lt fits)

-- `decodeBCD` should report an overflow for the ten bytes of each number from 2^65 + 8 to below
-- 2^65 + 2^64 - 10, which does not fit 64 bits; it returns the number less 2^65.
pub decode_bcd_misses_overflow :
    (v : ℕ) → 2 ^ 65 + 8 ≤ v → v + 10 < 2 ^ 65 + 2 ^ 64 → decode_bcd (pairs 10 v) ≡ ok (v - 2 ^ 65)
unfolding decode_bcd
decode_bcd_misses_overflow v lo hi =
    let ten = decode_loop-pairs 9 (v / 100) (digit_pair v ∷ []) (omega arith) (omega arith) in
    rw pairs_ten (ten ∙ decode_loop_wraps v lo hi)
