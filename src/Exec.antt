-- ===== src/Exec.antt =====
-- Methods that change an object and may throw: what was written before a throw stays written.
use ravl.Result.{Exception, Result, ok, err, undefined}

abbrev pub Exec {ℓ} : Type ℓ → Type ℓ → Type ℓ
Exec S A = S → Result A × S

module _ {ℓ} {S A B : Type ℓ} where
  abbrev pub continue : Result A → (A → Exec S B) → Exec S B
  continue (ok a) f s = f a s
  continue (err e) f s = (err e, s)
  continue undefined f s = (undefined, s)

  infixl 5 ◌>>=◌ ◌>>◌
  abbrev pub ◌>>=◌ : Exec S A → (A → Exec S B) → Exec S B
  ◌>>=◌ m f s = continue (m s).0 f (m s).1

  abbrev pub ◌>>◌ : Exec S A → Exec S B → Exec S B
  m >> n = m >>= λ _. n

module _ {ℓ} {S A : Type ℓ} where
  abbrev pub pure : A → Exec S A
  pure a s = (ok a, s)

  abbrev pub throw : Exception → Exec S A
  throw e s = (err e, s)

  -- A call that changes no state.
  abbrev pub lift : Result A → Exec S A
  lift r s = (r, s)

  abbrev pub gets : (S → A) → Exec S A
  gets f s = (ok (f s), s)

  abbrev caught : Result A → (Exception → Exec S A) → Exec S A
  caught (ok a) h s = (ok a, s)
  caught (err e) h s = h e s
  caught undefined h s = (undefined, s)

  -- `try { m } catch (std::exception& e) { h(e) }`
  abbrev pub try_catch : Exec S A → (Exception → Exec S A) → Exec S A
  try_catch m h s = caught (m s).0 h (m s).1

abbrev pub modify : {S : Type 0} → (S → S) → Exec S (Unit {0})
modify f s = (ok tt, f s)
