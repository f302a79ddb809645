-- ===== src/Common/Slices.antt =====
-- Go slices of bytes. A slice sees `len` bytes of an array, and `cells` runs to its capacity: a
-- slice expression may reach past the length up to there, while an index may not.
use Prim.Native.Nat.{ℕ, ◌-◌, ◌≤◌, ◌<◌, zero, suc}
use mathlib.Core.Path.{◌≡◌}
use mathlib.Core.Bool.{◌&&◌}
use mathlib.Core.List.{List, [], ◌∷◌}
use mathlib.Core.Logic.{◌⊎◌, inl, inr}
use mathlib.Core.Option.{none, some}
use omron_hostlink_fins.Common.Tests.{leb, le→leb, leb-false, Bool-cases, if◌then◌else◌}
use omron_hostlink_fins.Common.Lists.{length, get_elem?, set, take, drop, get_elem?-lt}
use omron_hostlink_fins.Common.Outcomes.{Result, ok, panic, IsPlain}

pub record Slice : Type 0 where
  pub cells : List ℕ
  pub len : ℕ

pub record IsSlice (s : Slice) : Type 0 where
  pub within : s.len ≤ length s.cells

-- A slice whose capacity is its length.
abbrev pub of_list : List ℕ → Slice
of_list xs = record { cells = xs; len = length xs }

abbrev pub contents : Slice → List ℕ
contents s = take s.len s.cells

-- `b[i]` and `b[i] = v` on the bytes that a slice sees.
abbrev pub index {ℓ} : {A : Type ℓ} → List A → ℕ → Result A
index xs i = elim (get_elem? xs i) [ none ↦ panic | some x ↦ ok x ]

abbrev pub put {ℓ} : {A : Type ℓ} → List A → ℕ → A → Result (List A)
put xs i v = elim (get_elem? xs i) [ none ↦ panic | some _ ↦ ok (set xs i v) ]

pub put-lt {ℓ} :
    {A : Type ℓ} (xs : List A) (i : ℕ) (v : A) → i < length xs → put xs i v ≡ ok (set xs i v)
put-lt xs i v h = let (a, e) = get_elem?-lt xs i h in rw (e, put)

-- `s[lo:hi]`
abbrev pub reslice : Slice → ℕ → ℕ → Result Slice
reslice s lo hi =
    if leb lo hi && leb hi (length s.cells)
    then ok (record { cells = drop lo s.cells; len = hi - lo })
    else panic

-- `s[lo:]`
abbrev pub slice_from : Slice → ℕ → Result Slice
slice_from s lo =
    if leb lo s.len then ok (record { cells = drop lo s.cells; len = s.len - lo }) else panic

pub reslice_lem :
    (s : Slice) (lo hi : ℕ)
    → lo ≤ hi
    → hi ≤ length s.cells
    → reslice s lo hi ≡ ok (record { cells = drop lo s.cells; len = hi - lo })
reslice_lem s lo hi h k = rw (le→leb lo hi h, le→leb hi (length s.cells) k)

pub slice_from_lem :
    (s : Slice) (lo : ℕ)
    → lo ≤ s.len
    → slice_from s lo ≡ ok (record { cells = drop lo s.cells; len = s.len - lo })
slice_from_lem s lo h = rw (le→leb lo s.len h)

pub reslice-IsPlain : (s : Slice) (lo hi : ℕ) → IsPlain (reslice s lo hi)
reslice-IsPlain s lo hi = elim (Bool-cases (leb lo hi && leb hi (length s.cells))) [
  | inl e ↦ rw e tt
  | inr e ↦ rw e tt
]

pub index-IsPlain {ℓ} : {A : Type ℓ} (xs : List A) (i : ℕ) → IsPlain (index xs i)
index-IsPlain [] i = tt
index-IsPlain (x ∷ xs) zero = tt
index-IsPlain (x ∷ xs) (suc i) = index-IsPlain xs i

pub reslice_outside :
    (s : Slice) (lo hi : ℕ) → (hi < lo) ⊎ (length s.cells < hi) → reslice s lo hi ≡ panic
reslice_outside s lo hi (inl h) = rw (leb-false lo hi h)
reslice_outside s lo hi (inr h) =
    let e = leb-false hi (length s.cells) h in
    elim (Bool-cases (leb lo hi)) [ inl a ↦ rw (a, e) | inr a ↦ rw a ]
