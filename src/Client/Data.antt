-- ===== src/Client/Data.antt =====
-- `ReadWords` of the clients: what it makes of the data of any response.
use mathlib.Core.List.{append_assoc}
use omron_hostlink_fins.Client.Read.{words_loop}
use omron_hostlink_fins.Client.Words.{words_bytes, words_loop_lem}
use omron_hostlink_fins.Common.{All, List, [], ap, arith, length, length-append}
use omron_hostlink_fins.Common.{length-replicate, ok, refl, replicate, suc, sym, zero, ℕ, ◌*◌}
use omron_hostlink_fins.Common.{◌++◌, ◌+◌, ◌-◌, ◌∷◌, ◌≡◌, ◌≤◌}
use omron_hostlink_fins.Common.Binary.{ByteOrder, big_endian, little_endian, uint16_bytes}
use omron_hostlink_fins.Common.Words.{IsUint16}

replicate_add : (k m n : ℕ) → n ≡ k + m → replicate {A = ℕ} n 0 ≡ replicate k 0 ++ replicate m 0
replicate_add zero m n e = ap (λ (j : ℕ). replicate j 0) (omega arith)
replicate_add (suc k) m zero e = absurd (omega arith)
replicate_add (suc k) m (suc n) e = ap (λ (xs : List ℕ). 0 ∷ xs) (replicate_add k m n (omega arith))

zero_bytes : (order : ByteOrder) → uint16_bytes order 0 ≡ 0 ∷ 0 ∷ []
zero_bytes big_endian = refl
zero_bytes little_endian = refl

words_bytes_zeros :
    (order : ByteOrder) (k : ℕ) → words_bytes order (replicate k 0) ≡ replicate (k * 2) 0
unfolding words_bytes
words_bytes_zeros order zero = refl
words_bytes_zeros order (suc k) =
    let next_two : suc k * 2 ≡ suc (suc (k * 2)) = omega arith in
    rw (next_two, zero_bytes order, words_bytes_zeros order k)

words_bytes-append :
    (order : ByteOrder) (words more : List ℕ)
    → words_bytes order (words ++ more) ≡ words_bytes order words ++ words_bytes order more
unfolding words_bytes
words_bytes-append order [] more = refl
words_bytes-append order (v ∷ words) more =
    rw (words_bytes-append order words more, append_assoc (uint16_bytes order v))

zeros-IsUint16 :
    (words : List ℕ) (k : ℕ) → All IsUint16 words → All IsUint16 (words ++ replicate k 0)
zeros-IsUint16 [] zero h = tt
zeros-IsUint16 [] (suc k) h = (omega arith, zeros-IsUint16 [] k h)
zeros-IsUint16 (v ∷ words) k (hv, h) = (hv, zeros-IsUint16 words k h)

pub words_loop_short :
    (order : ByteOrder) (words : List ℕ) (missing m : ℕ)
    → All IsUint16 words
    → missing * 2 ≤ m
    → words_loop order
        (record { cells = words_bytes order words ++ replicate m 0; len = length words * 2 })
        0
        (length words + missing)
      ≡ ok (words ++ replicate missing 0)
words_loop_short order words missing m h enough =
    let zeros = replicate {A = ℕ} missing 0 in
    let behind = replicate {A = ℕ} (m - missing * 2) 0 in
    let counted : length (words ++ zeros) ≡ length words + missing =
      omega (arith, length-append words zeros, length-replicate {A = ℕ} missing 0) in
    let split : replicate m 0 ≡ replicate (missing * 2) 0 ++ behind =
      replicate_add (missing * 2) (m - missing * 2) m (omega arith) in
    let cells : words_bytes order words ++ replicate m 0
        ≡ words_bytes order (words ++ zeros) ++ behind =
      rw (split, words_bytes-append order words zeros, words_bytes_zeros order missing)
        (sym (append_assoc (words_bytes order words) (replicate (missing * 2) 0) behind)) in
    rw (← counted, cells)
      (words_loop_lem order (words ++ zeros) 0 (length words * 2) [] behind
        (zeros-IsUint16 words missing h) refl)
