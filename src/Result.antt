-- ===== src/Result.antt =====
-- Exceptions and undefined behaviour as values. An exception carries the fixed part of its message
-- and the numbers that `fmt::format` puts in, or the exception whose `what()` it quotes.
use ravl.Prelude.{
  ◌⊎◌, inl, inr, ℕ, String, ◌≡◌, ◌≢◌, refl, ap, Bool, not, true, false, Option, none, some, List,
}

pub data Exception : Type 0 where
  runtime_error logic_error : String → Exception
  formatted : String → List ℕ → Exception
  quoted : String → Exception → Exception
  out_of_range length_error bad_alloc : Exception
  -- thrown inside a library that the program calls
  foreign : ℕ → Exception

-- `undefined` stands for every execution that the C++ standard leaves undefined.
pub data Result {ℓ} (A : Type ℓ) : Type ℓ where
  ok : A → Result A
  err : Exception → Result A
  undefined : Result A

module _ {ℓ κ} {A : Type ℓ} {B : Type κ} where
  infixl 5 ◌>>=◌ ◌>>◌
  abbrev pub ◌>>=◌ : Result A → (A → Result B) → Result B
  ok value >>= rest = rest value
  err thrown >>= rest = err thrown
  undefined >>= rest = undefined

  abbrev pub ◌>>◌ : Result A → Result B → Result B
  first >> second = first >>= λ _. second

-- `if (bad) throw std::runtime_error(message);`
abbrev pub throw_if : Bool → String → Result (Unit {0})
throw_if true message = err (runtime_error message)
throw_if false message = ok tt

-- `try { r } catch (const std::exception& ex) { throw std::runtime_error(message + ex.what()); }`
abbrev pub rethrow {ℓ} : {A : Type ℓ} → String → Result A → Result A
rethrow message (ok a) = ok a
rethrow message (err e) = err (quoted message e)
rethrow message undefined = undefined

-- What an optional holds; `*o` on an empty one is undefined.
abbrev pub deref {ℓ} : {A : Type ℓ} → Option A → Result A
deref none = undefined
deref (some a) = ok a

module _ {ℓ κ} {A : Type ℓ} {B : Type κ} where
  -- A chain that returned did so at each of its steps.
  pub bind_returned :
      {b : B} (first : Result A) (rest : A → Result B)
      → (first >>= rest) ≡ ok b
      → (value : A) × (rest value ≡ ok b) × (first ≡ ok value)
  bind_returned (ok value) rest returned = (value, returned, refl)
  bind_returned (err thrown) rest returned = cc
  bind_returned undefined rest returned = cc

module _ {ℓ κ} {A : Type ℓ} {B : Type κ} where
  -- A chain is defined if each of its steps is.
  pub bind_defined :
      (first : Result A) (rest : A → Result B)
      → first ≢ undefined
      → ((a : A) → rest a ≢ undefined)
      → (first >>= rest) ≢ undefined
  bind_defined (ok a) rest h₁ h₂ = h₂ a
  bind_defined (err e) rest h₁ h₂ = cc
  bind_defined undefined rest h₁ h₂ = absurd (h₁ refl)

module _ {ℓ κ} {A : Type ℓ} {B : Type κ} where
  -- The same, for a step that is defined because of what the steps before it returned.
  pub bind_defined_after :
      (first : Result A) (rest : A → Result B)
      → first ≢ undefined
      → ((a : A) → first ≡ ok a → rest a ≢ undefined)
      → (first >>= rest) ≢ undefined
  bind_defined_after (ok a) rest h₁ h₂ = h₂ a refl
  bind_defined_after (err e) rest h₁ h₂ = cc
  bind_defined_after undefined rest h₁ h₂ = absurd (h₁ refl)

-- A check that threw nothing found what it wanted.
pub throw_if_passed :
    (wanted : Bool) (message : String) {u : Unit {0}}
    → throw_if (not wanted) message ≡ ok u
    → wanted ≡ true
throw_if_passed true message e = refl
throw_if_passed false message e = absurd cc

pub rethrow_passed {ℓ} :
    {A : Type ℓ} (message : String) (r : Result A) (a : A) → rethrow message r ≡ ok a → r ≡ ok a
rethrow_passed message (ok b) a e = e
rethrow_passed message (err b) a e = absurd cc
rethrow_passed message undefined a e = absurd cc

pub ok_defined {ℓ} : {A : Type ℓ} (a : A) → ok a ≢ undefined
ok_defined a = cc

pub throw_if_defined : (b : Bool) (message : String) → throw_if b message ≢ undefined
throw_if_defined true message = cc
throw_if_defined false message = cc

pub ok-injective {ℓ} : {A : Type ℓ} (a b : A) → ok a ≡ ok b → a ≡ b
ok-injective a b e = ap (λ r. elim r [ ok x ↦ x | err _ ↦ a | undefined ↦ a ]) e

pub Result-cases {ℓ} :
    {A : Type ℓ} (r : Result A)
    → ((a : A) × (r ≡ ok a)) ⊎ ((e : Exception) × (r ≡ err e)) ⊎ (r ≡ undefined)
Result-cases (ok a) = inl (a, refl)
Result-cases (err e) = inr (inl (e, refl))
Result-cases undefined = inr (inr refl)

-- What holds of every branch holds of the whole.
module _ {R A : Type 0} (P : R → Type 0) where
  pub result_cases :
      (r : Result A) (f : A → R) (g : Exception → R) (u : R)
      → ((a : A) → P (f a))
      → ((x : Exception) → P (g x))
      → P u
      → P (elim r [ ok a ↦ f a | err x ↦ g x | undefined ↦ u ])
  result_cases (ok a) f g u h k l = h a
  result_cases (err x) f g u h k l = k x
  result_cases undefined f g u h k l = l
