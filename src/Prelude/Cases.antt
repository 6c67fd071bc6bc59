-- ===== src/Prelude/Cases.antt =====
-- What holds of both branches of a test holds of the whole.
use mathlib.Core.Path.{◌≡◌, refl}
use mathlib.Core.Bool.{Bool, true, false}
use mathlib.Core.Option.{Option, none, some}
use ravl.Prelude.Tests.{if◌then◌else◌}

module _ {ℓ κ} {R : Type ℓ} (P : R → Type κ) where
  pub if_cases :
      (b : Bool) (x y : R) → (b ≡ true → P x) → (b ≡ false → P y) → P (if b then x else y)
  if_cases true x y h k = h refl
  if_cases false x y h k = k refl

  pub option_cases {μ} :
      {A : Type μ} (o : Option A) (x : R) (f : A → R)
      → (o ≡ none → P x)
      → ((a : A) → o ≡ some a → P (f a))
      → P (elim o [ none ↦ x | some a ↦ f a ])
  option_cases none x f h k = h refl
  option_cases (some a) x f h k = k a refl
