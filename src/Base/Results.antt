-- ===== src/Base/Results.antt =====
-- A value or an error, Go's `(T, error)` where the value is used only if the error is nil.
use mathlib.Core.Path.{◌≡◌, refl}
use mathlib.Core.Option.{Option, none, some}

pub data Result {ℓ} (E A : Type ℓ) : Type ℓ where
  ok : A → Result E A
  err : E → Result E A

module _ {ℓ} {E : Type ℓ} where
  abbrev pub then_do : {A B : Type ℓ} → Result E A → (A → Result E B) → Result E B
  then_do (ok a) f = f a
  then_do (err e) f = err e

  -- if err := check; err != nil { return err }
  abbrev pub unless : {A : Type ℓ} → Option E → Result E A → Result E A
  unless none r = r
  unless (some e) r = err e

  pub unless-ok :
      {A : Type ℓ} (check : Option E) (r : Result E A) {a : A}
      → unless check r ≡ ok a
      → (check ≡ none) × (r ≡ ok a)
  unless-ok none r h = (refl, h)
  unless-ok (some e) r h = cc

  pub then_do-ok :
      {A B : Type ℓ} (r : Result E A) (f : A → Result E B) {b : B}
      → then_do r f ≡ ok b
      → (a : A) × (r ≡ ok a) × (f a ≡ ok b)
  then_do-ok (ok a) f h = (a, refl, h)
  then_do-ok (err e) f h = cc

  pub ok_eq : {A : Type ℓ} {a b : A} → ◌≡◌ {A = Result E A} (ok a) (ok b) → a ≡ b
  ok_eq h = cc
