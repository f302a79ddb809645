-- ===== src/Bytes/Expand.antt =====
-- fins/bytes.go: how many flags `ExpandBool` reads.
use omron_hostlink_fins.Bytes.Bools.{expand_bool, expand_loop}
use omron_hostlink_fins.Common.{Bool, List, Result, [], ap, arith, bit_and, drop}
use omron_hostlink_fins.Common.{drop-replicate_add, false, get_elem?-lt, if◌then◌else◌, index}
use omron_hostlink_fins.Common.{length, length-replicate, length-set, ltb, min, ok, put}
use omron_hostlink_fins.Common.{put-lt, refl, replicate, set, suc, true, zero, ℕ, ◌*◌, ◌+◌}
use omron_hostlink_fins.Common.{◌-◌, ◌<◌, ◌>>=◌, ◌∙◌, ◌∷◌, ◌≡◌, ◌≤◌}
use omron_hostlink_fins.Common.Words.{shl, shr}

drop-set_before : (b : List ℕ) (i k v : ℕ) → i < k → drop k (set b i v) ≡ drop k b
drop-set_before [] i k v h = refl
drop-set_before (x ∷ b) zero (suc k) v h = refl
drop-set_before (x ∷ b) (suc i) (suc k) v h = drop-set_before b i k v (omega arith)
drop-set_before (x ∷ b) i zero v h = absurd (omega arith)

-- One step of the loop sets a flag at its index or leaves all flags as they are.
expand_step :
    (flag : Bool) (b : List ℕ) (i : ℕ)
    → i < length b
    → (b' : List ℕ) × ((if flag then put b i 1 else ok b) ≡ ok b')
      × (length b' ≡ length b)
      × ((k : ℕ) → i < k → drop k b' ≡ drop k b)
expand_step true b i h =
    (set b i 1, put-lt b i 1 h, length-set {0} b i 1, λ k before. drop-set_before b i k 1 before)
expand_step false b i h = (b, refl, refl, λ k before. refl)

expand_loop_step :
    (left : ℕ) (buf : List ℕ) (i : ℕ) (b b1 : List ℕ) (x : ℕ)
    → index buf (shr i 3) ≡ ok x
    → (if ltb 0 (bit_and x (shl 8 1 (bit_and i 0x07))) then put b i 1 else ok b) ≡ ok b1
    → expand_loop (suc left) buf i b ≡ expand_loop left buf (i + 1) b1
unfolding expand_loop
expand_loop_step left buf i b b1 x e e1 =
    ap
      (λ (r : Result ℕ). r >>= λ y.
        (if ltb 0 (bit_and y (shl 8 1 (bit_and i 0x07))) then put b i 1 else ok b) >>= λ b'.
        expand_loop left buf (i + 1) b')
      e
    ∙ ap (λ (r : Result (List ℕ)). r >>= λ b'. expand_loop left buf (i + 1) b') e1

expand_loop_lem :
    (left : ℕ) (buf : List ℕ) (i : ℕ) (b : List ℕ)
    → i + left ≤ length buf
    → i + left ≤ length b
    → (b' : List ℕ) × (expand_loop left buf i b ≡ ok b')
      × (length b' ≡ length b)
      × (drop (i + left) b' ≡ drop (i + left) b)
unfolding expand_loop
expand_loop_lem zero buf i b inside room = (b, refl, refl, refl)
expand_loop_lem (suc left) buf i b inside room =
    let (x, at_byte) = get_elem?-lt buf (shr i 3) (omega arith) in
    let read_byte : index buf (shr i 3) ≡ ok x = rw (at_byte, index) in
    let flag = ltb 0 (bit_and x (shl 8 1 (bit_and i 0x07))) in
    let (b1, e1, same1, kept1) = expand_step flag b i (omega arith) in
    let (b2, e2, same2, kept2) =
      expand_loop_lem left buf (i + 1) b1 (omega arith) (omega (arith, same1)) in
    let regroup : i + 1 + left ≡ i + suc left = omega arith in
    (
      b2,
      expand_loop_step left buf i b b1 x read_byte e1 ∙ e2,
      same2 ∙ same1,
      rw regroup at kept2 ∙ kept1 (i + suc left) (omega arith),
    )

-- `ExpandBool` should unpack eight flags from each byte. Asked for at least as many flags as there
-- are bytes, it returns as many as it is asked for and the bytes hold, but behind the first flags, as
-- many as there are bytes, all are zero, whatever the bytes say.
pub expand_bool_stops :
    (buf : List ℕ) (count : ℕ)
    → length buf ≤ count
    → (b : List ℕ) × (expand_bool buf count ≡ ok b)
      × (length b ≡ min count (length buf * 8))
      × (drop (length buf) b ≡ replicate (min count (length buf * 8) - length buf) 0)
unfolding expand_bool
expand_bool_stops buf count h =
    let n = length buf in
    let all = min count (n * 8) in
    let asked : (if ltb (n * 8) count then n * 8 else count) ≡ all = ground arith in
    let zeros = replicate {A = ℕ} all 0 in
    let counted = length-replicate {A = ℕ} all 0 in
    let (b, e, same, kept) = expand_loop_lem n buf 0 zeros (omega arith) (omega (arith, counted)) in
    let from_start : n ≡ 0 + n = omega arith in
    (
      b,
      ap (λ (k : ℕ). expand_loop n buf 0 (replicate k 0)) asked ∙ e,
      same ∙ counted,
      ap (λ (k : ℕ). drop k b) from_start
          ∙ kept
          ∙ drop-replicate_add (0 + n) (all - n) all 0 (omega arith),
    )
