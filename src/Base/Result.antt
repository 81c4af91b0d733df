-- ===== src/Base/Result.antt =====
-- A value or the error that was thrown.
use mathlib.Core.Path.{◌≡◌, refl}
use mathlib.Core.Logic.{◌≢◌, ◌⊎◌, inl, inr}

pub data Result {ℓ} (Error Value : Type ℓ) : Type ℓ where
  err : (thrown : Error) → Result Error Value
  ok : (value : Value) → Result Error Value

module _ {ℓ} {X : Type ℓ} where
  infixl 5 ◌>>=◌
  -- what follows is run on a value and skipped by an error
  abbrev pub ◌>>=◌ : {V W : Type ℓ} → Result X V → (V → Result X W) → Result X W
  err x >>= next = err x
  ok v >>= next = next v

  pub >>=-eq-ok :
      {V W : Type ℓ} (first : Result X V) (next : V → Result X W) {w : W}
      → first >>= next ≡ ok w
      → (v : V) × (first ≡ ok v) × (next v ≡ ok w)
  >>=-eq-ok (err x) next h = cc
  >>=-eq-ok (ok v) next h = (v, refl, h)

  pub Result-cases :
      {V : Type ℓ} (r : Result X V) → ((v : V) × (r ≡ ok v)) ⊎ ((x : X) × (r ≡ err x))
  Result-cases (err x) = inr (x, refl)
  Result-cases (ok v) = inl (v, refl)

  pub err-ne-ok : {V : Type ℓ} {x : X} {v : V} → err x ≢ ok v
  err-ne-ok h = cc

  pub ok_inj : {V : Type ℓ} {v w : V} → ◌≡◌ {A = Result X V} (ok v) (ok w) → v ≡ w
  ok_inj h = cc
