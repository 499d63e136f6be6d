-- ===== src/Prelude/Steps.antt =====
-- Code that changes a state and may return an error: what was done before an error stays done.
use mathlib.Core.Path.{◌≡◌, refl}
use mathlib.Core.Bool.{Bool, true, false}
use native.Mathlib.Omega.{arith}
use z_bacs.Prelude.Results.{Result, ok, err, refuse_if}

abbrev pub Steps : Type 0 → Type 0 → Type 0 → Type 0
Steps S E A = S → S × Result E A

module _ {S E : Type 0} where
  abbrev pub done : {A : Type 0} → A → Steps S E A
  done a s = (s, ok a)

  -- `?` on a result that no state is needed for.
  abbrev pub lift : {A : Type 0} → Result E A → Steps S E A
  lift a s = (s, a)

  -- `return Err(e)` under a test.
  abbrev pub fail_if : Bool → E → Steps S E (Unit {0})
  fail_if b e s = (s, refuse_if b e)

  abbrev pub set : (S → S) → Steps S E (Unit {0})
  set f s = (f s, ok tt)

  abbrev pub next : {A B : Type 0} → S × Result E A → (A → Steps S E B) → S × Result E B
  next (s, ok a) f = f a s
  next (s, err e) f = (s, err e)

  infixl 5 ◌>>=◌ ◌>>◌
  abbrev pub ◌>>=◌ : {A B : Type 0} → Steps S E A → (A → Steps S E B) → Steps S E B
  ◌>>=◌ m f s = next (m s) f

  abbrev pub ◌>>◌ : {B : Type 0} → Steps S E (Unit {0}) → Steps S E B → Steps S E B
  m >> k = m >>= λ _. k

module _ {S E A B : Type 0} where
  -- What holds after a step that fails, and after the rest where it succeeds, holds of the whole.
  pub step-cases :
      (P : S × Result E B → Type 0) (m : Steps S E A) (f : A → Steps S E B) (s : S)
      → ((s' : S) (e : E) → m s ≡ (s', err e) → P (s', err e))
      → ((s' : S) (a : A) → m s ≡ (s', ok a) → P (f a s'))
      → P ((m >>= f) s)
  step-cases P m f s bad good = cases (m s) bad good
    where
      cases :
          (y : S × Result E A)
          → ((s' : S) (e : E) → y ≡ (s', err e) → P (s', err e))
          → ((s' : S) (a : A) → y ≡ (s', ok a) → P (f a s'))
          → P (next y f)
      cases (s', ok a) bad good = good s' a refl
      cases (s', err e) bad good = bad s' e refl

  pub lift-cases :
      (P : S × Result E B → Type 0) (x : Result E A) (f : A → Steps S E B) (s : S)
      → ((e : E) → P (s, err e))
      → ((a : A) → x ≡ ok a → P (f a s))
      → P ((lift x >>= f) s)
  lift-cases P (ok a) f s bad good = good a refl
  lift-cases P (err e) f s bad good = bad e

-- The same for a test.
module _ {S E B : Type 0} where
  pub fail_if-cases :
      (P : S × Result E B → Type 0) (b : Bool) (e : E) (f : Unit {0} → Steps S E B) (s : S)
      → (b ≡ true → P (s, err e))
      → (b ≡ false → P (f tt s))
      → P ((fail_if b e >>= f) s)
  fail_if-cases P true e f s bad good = bad refl
  fail_if-cases P false e f s bad good = good refl

-- The parts of a run that succeeds.
module _ {S E A B : Type 0} where
  pub step-ok :
      (m : Steps S E A) (f : A → Steps S E B) (s : S) {s' : S} {b : B}
      → (m >>= f) s ≡ (s', ok b)
      → (t : S) × (a : A) × (m s ≡ (t, ok a)) × (f a t ≡ (s', ok b))
  step-ok m f s h = cases (m s) refl h
    where
      cases :
          (y : S × Result E A) {s' : S} {b : B}
          → m s ≡ y
          → next y f ≡ (s', ok b)
          → (t : S) × (a : A) × (m s ≡ (t, ok a)) × (f a t ≡ (s', ok b))
      cases (t, ok a) e h = (t, a, e, h)
      cases (t, err x) e h = absurd (ground arith)

  pub lift-ok :
      (x : Result E A) (f : A → Steps S E B) (s : S) {s' : S} {b : B}
      → (lift x >>= f) s ≡ (s', ok b)
      → (a : A) × (x ≡ ok a) × (f a s ≡ (s', ok b))
  lift-ok (ok a) f s h = (a, refl, h)
  lift-ok (err e) f s h = absurd (ground arith)

module _ {S E B : Type 0} where
  pub fail_if-ok :
      (b : Bool) (e : E) (f : Unit {0} → Steps S E B) (s : S) {s' : S} {r : B}
      → (fail_if b e >>= f) s ≡ (s', ok r)
      → (b ≡ false) × (f tt s ≡ (s', ok r))
  fail_if-ok true e f s h = absurd (ground arith)
  fail_if-ok false e f s h = (refl, h)
