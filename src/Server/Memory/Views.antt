-- ===== src/Server/Memory/Views.antt =====
-- fins/udp_server.go: lists of bytes seen as functions.
use mathlib.Core.Path.{fun_ext}
use omron_hostlink_fins.Common.{Bool-cases, List, [], ap, arith, drop, get_or, inl, inr, leb}
use omron_hostlink_fins.Common.{length, length-take, ltb, refl, suc, take, zero, ℕ, ◌++◌, ◌+◌}
use omron_hostlink_fins.Common.{◌-◌, ◌<◌, ◌∙◌, ◌∷◌, ◌≡◌, ◌≤◌}
use omron_hostlink_fins.Server.{splice}
use omron_hostlink_fins.Server.Memory.{overwrite, range_of}

-- The byte at a place of an area; there is a 0 at every place past its end.
abbrev pub byte_at : List ℕ → ℕ → ℕ
byte_at area i = get_or area i 0

byte_at-append_lt : (xs ys : List ℕ) (i : ℕ) → i < length xs → byte_at (xs ++ ys) i ≡ byte_at xs i
byte_at-append_lt [] ys i h = absurd (omega arith)
byte_at-append_lt (x ∷ xs) ys zero h = refl
byte_at-append_lt (x ∷ xs) ys (suc i) h = byte_at-append_lt xs ys i (omega arith)

byte_at-append_ge :
    (xs ys : List ℕ) (i : ℕ) → length xs ≤ i → byte_at (xs ++ ys) i ≡ byte_at ys (i - length xs)
byte_at-append_ge [] ys i h = ap (byte_at ys) (omega arith)
byte_at-append_ge (x ∷ xs) ys zero h = absurd (omega arith)
byte_at-append_ge (x ∷ xs) ys (suc i) h =
    byte_at-append_ge xs ys i (omega arith) ∙ ap (byte_at ys) (omega arith)

byte_at-take : (n : ℕ) (xs : List ℕ) (i : ℕ) → i < n → byte_at (take n xs) i ≡ byte_at xs i
byte_at-take zero xs i h = absurd (omega arith)
byte_at-take (suc n) [] i h = refl
byte_at-take (suc n) (x ∷ xs) zero h = refl
byte_at-take (suc n) (x ∷ xs) (suc i) h = byte_at-take n xs i (omega arith)

byte_at-drop : (n : ℕ) (xs : List ℕ) (i : ℕ) → byte_at (drop n xs) i ≡ byte_at xs (n + i)
byte_at-drop zero xs i = ap (byte_at xs) (omega arith)
byte_at-drop (suc n) [] i = refl
byte_at-drop (suc n) (x ∷ xs) i =
    let next : suc n + i ≡ suc (n + i) = omega arith in rw next (byte_at-drop n xs i)

-- A splice is an overwriting.
pub byte_at-splice :
    (area new : List ℕ) (lo : ℕ)
    → lo + length new ≤ length area
    → byte_at (splice area lo new) ≡ overwrite (byte_at area) lo new
byte_at-splice area new lo fits = fun_ext λ i.
    let front = take lo area in
    let back = drop (lo + length new) area in
    let front_size : length front ≡ lo = omega (arith, length-take lo area) in
    elim (Bool-cases (leb lo i)) [
      | inl above ↦
          let behind : byte_at (front ++ (new ++ back)) i ≡ byte_at (new ++ back) (i - lo) =
            byte_at-append_ge front (new ++ back) i (ground (arith, front_size))
            ∙ ap (λ (k : ℕ). byte_at (new ++ back) (i - k)) front_size in
          elim (Bool-cases (ltb i (lo + length new))) [
            | inl within ↦
                rw (above, within) (behind ∙ byte_at-append_lt new back (i - lo) (ground arith))
            | inr past ↦
                let same : lo + length new + (i - lo - length new) ≡ i = ground arith in
                rw (above, past)
                  (behind
                    ∙ byte_at-append_ge new back (i - lo) (ground arith)
                    ∙ byte_at-drop (lo + length new) area (i - lo - length new)
                    ∙ ap (byte_at area) same)
          ]
      | inr below ↦ rw below (
          byte_at-append_lt front (new ++ back) i (ground (arith, front_size))
          ∙ byte_at-take lo area i (ground arith))
    ]

drop_next :
    (area : List ℕ) (lo : ℕ)
    → lo < length area
    → drop lo area ≡ byte_at area lo ∷ drop (lo + 1) area
drop_next [] lo h = absurd (omega arith)
drop_next (x ∷ xs) zero h = refl
drop_next (x ∷ xs) (suc lo) h =
    let next : suc lo + 1 ≡ suc (lo + 1) = omega arith in rw next (drop_next xs lo (omega arith))

-- The bytes of an area from a place on.
pub take-drop_range :
    (area : List ℕ) (lo n : ℕ)
    → lo + n ≤ length area
    → take n (drop lo area) ≡ range_of (byte_at area) lo n
take-drop_range area lo zero fits = refl
take-drop_range area lo (suc n) fits =
    rw (drop_next area lo (omega arith))
      (ap (λ (xs : List ℕ). byte_at area lo ∷ xs) (take-drop_range area (lo + 1) n (omega arith)))
