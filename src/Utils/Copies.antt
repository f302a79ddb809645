-- ===== src/Utils/Copies.antt =====
-- The builtin `copy` by the lengths of its two slices.
use omron_hostlink_fins.Common.{List, [], ap, arith, drop, length, refl, suc, ℕ, ◌++◌, ◌∷◌}
use omron_hostlink_fins.Common.{◌≡◌, ◌≤◌}
use omron_hostlink_fins.Utils.{copy}

pub length-copy : (dst src : List ℕ) → length (copy dst src) ≡ length dst
length-copy [] src = refl
length-copy (d ∷ dst) [] = refl
length-copy (d ∷ dst) (s ∷ src) = ap suc (length-copy dst src)

pub copy_same : (dst src : List ℕ) → length dst ≡ length src → copy dst src ≡ src
copy_same [] [] h = refl
copy_same [] (s ∷ src) h = absurd (omega arith)
copy_same (d ∷ dst) [] h = absurd (omega arith)
copy_same (d ∷ dst) (s ∷ src) h = ap (λ t. s ∷ t) (copy_same dst src (omega arith))

pub copy_shorter :
    (dst src : List ℕ) → length src ≤ length dst → copy dst src ≡ src ++ drop (length src) dst
copy_shorter [] [] h = refl
copy_shorter [] (s ∷ src) h = absurd (omega arith)
copy_shorter (d ∷ dst) [] h = refl
copy_shorter (d ∷ dst) (s ∷ src) h = ap (λ t. s ∷ t) (copy_shorter dst src (omega arith))
