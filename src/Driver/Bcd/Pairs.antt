-- ===== src/Driver/Bcd/Pairs.antt =====
-- fins/driver.go: the pairs of digits that `encodeBCD` fills in, and how `decodeBCD` reads them.
use mathlib.Core.List.{append_assoc}
use native.Mathlib.Nat.{pow-suc}
use omron_hostlink_fins.Common.{List, [], ap, arith, drop, drop-set, length, length-set, ok}
use omron_hostlink_fins.Common.{put-lt, refl, set, suc, zero, ℕ, ◌%◌, ◌*◌, ◌++◌, ◌+◌, ◌/◌, ◌<◌}
use omron_hostlink_fins.Common.{◌^◌, ◌∙◌, ◌∷◌, ◌≡◌, ◌≤◌}
use omron_hostlink_fins.Common.Words.{to_byte}
use omron_hostlink_fins.Driver.Bcd.{decode_loop, fill_pairs, pack_nibbles}
use omron_hostlink_fins.Driver.Bcd.Steps.{decode_loop_digits, digit_pair, pack_nibbles_lem}

-- The lowest `2 * k` decimal digits of `x`, two to a byte, the highest first.
unfoldable pub pairs : ℕ → ℕ → List ℕ
pairs zero x = []
pairs (suc k) x = pairs k (x / 100) ++ (digit_pair x ∷ [])

pair_byte : (x : ℕ) → pack_nibbles (to_byte (x / 10 % 10)) (to_byte (x % 10)) ≡ digit_pair x
pair_byte x = pack_nibbles_lem _ _ (omega arith) (omega arith) ∙ omega arith

-- The loop of `encodeBCD` stays inside its slice, and leaves what lies behind its first `k` bytes.
pub fill_pairs_lem :
    (k x : ℕ) (bcd : List ℕ) → k ≤ length bcd → fill_pairs k x bcd ≡ ok (pairs k x ++ drop k bcd)
unfolding fill_pairs pairs
fill_pairs_lem zero x bcd h = refl
fill_pairs_lem (suc k) x bcd h =
    let v = digit_pair x in
    rw (pair_byte, put-lt bcd k v h)
      (fill_pairs_lem k (x / 100) (set bcd k v) (omega (arith, length-set {0} bcd k v))
        ∙ rw (drop-set bcd k v h, append_assoc))

pub decode_loop_pair :
    (x v : ℕ) (rest : List ℕ)
    → 100 * x + v % 100 < 2 ^ 64
    → decode_loop (digit_pair v ∷ rest) x ≡ decode_loop rest (100 * x + v % 100)
decode_loop_pair x v rest h =
    decode_loop_digits (v / 10 % 10) (v % 10) x rest (omega arith) (omega arith) (omega arith)
    ∙ ap (decode_loop rest) (omega arith)

-- Reading back the digits of `x`, in front of anything.
pub decode_loop-pairs :
    (k x : ℕ) (rest : List ℕ)
    → x < 100 ^ k
    → x < 2 ^ 64
    → decode_loop (pairs k x ++ rest) 0 ≡ decode_loop rest x
unfolding pairs
decode_loop-pairs zero x rest h fits = ap (decode_loop rest) (omega arith)
decode_loop-pairs (suc k) x rest h fits = rw append_assoc (
    decode_loop-pairs k (x / 100) (digit_pair x ∷ rest) (omega (arith, pow-suc 100 k)) (omega arith)
    ∙ decode_loop_pair (x / 100) x rest (omega arith)
    ∙ ap (decode_loop rest) (omega arith))
