-- ===== src/Driver/Bcd/BadDigits.antt =====
-- fins/driver.go: `decodeBCD` on bytes that are no decimal digits.
use native.Mathlib.Decide.{dec_lt}
use omron_hostlink_fins.Common.{List, arith, err, false, if◌then◌else◌, ltb, ltb-false, lt→ltb}
use omron_hostlink_fins.Common.{true, ℕ, ◌*◌, ◌++◌, ◌+◌, ◌<◌, ◌==◌, ◌^◌, ◌∙◌, ◌∷◌, ◌≡◌, ◌⊎◌}
use omron_hostlink_fins.Driver.Bcd.{decode_bcd, decode_loop}
use omron_hostlink_fins.Driver.Bcd.Pairs.{decode_loop-pairs, pairs}
use omron_hostlink_fins.Driver.Bcd.Steps.{nibbles, times_ten_ok}
use omron_hostlink_fins.Errors.{bcd_bad_digit}

bad_byte :
    (x hi lo : ℕ) (rest : List ℕ)
    → x < 10 ^ 18
    → lo < 15
    → (9 < hi) ⊎ (9 < lo)
    → decode_loop ((hi * 16 + lo) ∷ rest) x
      ≡ err (if ltb 9 hi then bcd_bad_digit "hi" hi else bcd_bad_digit "lo" lo)
unfolding decode_loop
bad_byte x hi lo rest small low bad =
    let (high, low_bits) = nibbles hi lo (omega arith) in
    let no_end : (lo == 0x0f) ≡ false = ground arith in
    elim (dec_lt 9 hi) [
      | yes over ↦ rw (high, lt→ltb 9 hi over)
      | no fine ↦
          let over : ltb 9 lo ≡ true = ground arith in
          let first = times_ten_ok x hi (omega arith) (omega arith) in
          rw (high, low_bits, ltb-false 9 hi (omega arith), first, no_end, over)
    ]

-- Behind `k` pairs of decimal digits of a number below 10^18, a byte whose low half is below 15 and
-- one of whose halves is more than 9 makes `decodeBCD` return the error that names that half, the
-- high one first, and its value.
pub decode_bcd_bad_digit :
    (k x hi lo : ℕ) (rest : List ℕ)
    → x < 100 ^ k
    → x < 10 ^ 18
    → lo < 15
    → (9 < hi) ⊎ (9 < lo)
    → decode_bcd (pairs k x ++ ((hi * 16 + lo) ∷ rest))
      ≡ err (if ltb 9 hi then bcd_bad_digit "hi" hi else bcd_bad_digit "lo" lo)
unfolding decode_bcd
decode_bcd_bad_digit k x hi lo rest h small low bad =
    decode_loop-pairs k x ((hi * 16 + lo) ∷ rest) h (omega arith)
    ∙ bad_byte x hi lo rest small low bad
