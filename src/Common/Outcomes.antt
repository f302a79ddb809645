-- ===== src/Common/Outcomes.antt =====
-- What a call of a Go function comes to.
use mathlib.Core.Path.{◌≡◌, refl, ap}
use omron_hostlink_fins.Errors.{Error}

-- `err` is a returned error, `panic` a run-time panic (an index or a slice bound out of range), and
-- `hang` a call that waits for ever.
pub data Result {ℓ} (A : Type ℓ) : Type ℓ where
  ok : A → Result A
  err : Error → Result A
  panic : Result A
  hang : Result A

infixl 5 ◌>>=◌
abbrev pub ◌>>=◌ {k l} : {X : Type k} {Y : Type l} → Result X → (X → Result Y) → Result Y
ok x >>= next = next x
err e >>= _ = err e
panic >>= _ = panic
hang >>= _ = hang

-- A call that returns normally or panics.
abbrev pub IsPlain {ℓ} : {A : Type ℓ} → Result A → Type 0
IsPlain (ok a) = Unit
IsPlain (err e) = ⊥
IsPlain panic = Unit
IsPlain hang = ⊥

-- What panics behind a plain call panics with it.
pub >>=-panic {ℓ κ} :
    {A : Type ℓ} {B : Type κ} (m : Result A) (f : A → Result B)
    → IsPlain m
    → ((a : A) → f a ≡ panic)
    → (m >>= f) ≡ panic
>>=-panic (ok a) f p h = h a
>>=-panic (err e) f p h = elim p [ ]
>>=-panic panic f p h = refl
>>=-panic hang f p h = elim p [ ]

pub ok-injective {ℓ} : {A : Type ℓ} {a b : A} → ok a ≡ ok b → a ≡ b
ok-injective {a} e = ap (elim [ ok x ↦ x | err _ ↦ a | panic ↦ a | hang ↦ a ]) e

-- What a normal return of a sequence says of its two parts.
pub >>=-eq-ok {k l} :
    {X : Type k} {Y : Type l} (first : Result X) (next : X → Result Y) {y : Y}
    → (first >>= next) ≡ ok y
    → (x : X) × (first ≡ ok x) × (next x ≡ ok y)
>>=-eq-ok (ok x) next e = (x, refl, e)
>>=-eq-ok (err _) next e = cc
>>=-eq-ok panic next e = cc
>>=-eq-ok hang next e = cc
