-- ===== src/Error/Ensures.antt =====
-- Total correctness of a fallible run: it is not out of fuel, and a value that it returns has `P`.
use mathlib.Core.Path.{subst}
use exio.Prelude.{◌≡◌, ◌≢◌, refl, Bool, true, false, if◌then◌else◌}
use exio.Error.{Error, Result, ok, err, ◌>>=◌, out_of_fuel}

pub data Ensures {ℓ κ} {A : Type ℓ} (P : A → Type κ) : Result A → Type (ℓ ⊔ κ) where
  returns : {a : A} → P a → Ensures P (ok a)
  raises : {e : Error} → e ≢ out_of_fuel → Ensures P (err e)

module _ {ℓ κ} {A : Type ℓ} {P : A → Type κ} where
  pub Ensures-ok : {r : Result A} {a : A} → Ensures P r → r ≡ ok a → P a
  Ensures-ok (returns h) e = subst P (cc) h
  Ensures-ok (raises n) e = cc

  pub Ensures-out_of_fuel : {r : Result A} → Ensures P r → r ≢ err out_of_fuel
  Ensures-out_of_fuel (returns h) = cc
  Ensures-out_of_fuel (raises n) = λ e. n (cc)

  pub Ensures-if :
      (b : Bool) {x y : Result A}
      → (b ≡ true → Ensures P x)
      → (b ≡ false → Ensures P y)
      → Ensures P (if b then x else y)
  Ensures-if true hx hy = hx refl
  Ensures-if false hx hy = hy refl

  pub Ensures-bind {ℓ' κ'} :
      {B : Type ℓ'} {Q : B → Type κ'} {r : Result A} {f : A → Result B}
      → Ensures P r
      → ((a : A) → P a → Ensures Q (f a))
      → Ensures Q (r >>= f)
  Ensures-bind (returns {a} h) k = k a h
  Ensures-bind (raises n) k = raises n

  pub Ensures-weaken {κ'} :
      {Q : A → Type κ'} {r : Result A} → Ensures P r → ((a : A) → P a → Q a) → Ensures Q r
  Ensures-weaken (returns {a} h) k = returns (k a h)
  Ensures-weaken (raises n) k = raises n
