-- ===== src/Base/Effects.antt =====
-- Functions that read and write a state and may fail. What was written before an error stays
-- written, so the state comes back beside the error too.
use mathlib.Core.Path.{◌≡◌, refl}
use director_orson_callan_kr.Base.Tests.{Bytes, Result, ok, err, Outcome, Outcome-intro}

abbrev pub Exec {ℓ} : Type ℓ → Type ℓ → Type ℓ
Exec S A = S → Result A × S

abbrev pub wrap_err {ℓ} : {A : Type ℓ} → (Bytes → Bytes) → Result A → Result A
wrap_err f (ok a) = ok a
wrap_err f (err e) = err (f e)

module _ {ℓ} {S A : Type ℓ} where
  abbrev pub pure : A → Exec S A
  pure a s = (ok a, s)

  abbrev pub raise : Bytes → Exec S A
  raise e s = (err e, s)

  abbrev pub lift : Result A → Exec S A
  lift r s = (r, s)

  abbrev pub modify : (S → A × S) → Exec S A
  modify f s = let (a, s') = f s in (ok a, s')

  -- The result and the error of a call, with the call itself a success: `x, err := f()`.
  abbrev pub try_exec : Exec S A → Exec S (Result A)
  try_exec m s = let (r, s') = m s in (ok r, s')

  -- A call whose error is wrapped.
  abbrev pub map_err : (Bytes → Bytes) → Exec S A → Exec S A
  map_err f m s = let (r, s') = m s in (wrap_err f r, s')

  -- A call ends in an error with `E` of the message and the state, or in a value with `O`.
  abbrev pub Ends {κ} : Exec S A → S → (Bytes → S → Type κ) → (A → S → Type κ) → Type κ
  Ends m s E O = Outcome (m s).0 (λ e. E e (m s).1) (λ a. O a (m s).1)

  pub Ends-intro {κ} :
      (m : Exec S A) (s : S) (E : Bytes → S → Type κ) (O : A → S → Type κ)
      → ((e : Bytes) → (m s).0 ≡ err e → E e (m s).1)
      → ((a : A) → (m s).0 ≡ ok a → O a (m s).1)
      → Ends m s E O
  Ends-intro m s E O = Outcome-intro (m s).0 (λ e. E e (m s).1) (λ a. O a (m s).1)

module _ {ℓ} {S A B : Type ℓ} where
  abbrev pub continue : Result A → (A → Exec S B) → Exec S B
  continue (ok a) f s = f a s
  continue (err e) f s = (err e, s)

  infixl 10 ◌>>=◌ ◌>>◌
  abbrev pub ◌>>=◌ : Exec S A → (A → Exec S B) → Exec S B
  ◌>>=◌ m f s = let (r, s') = m s in continue r f s'

  abbrev pub ◌>>◌ : Exec S A → Exec S B → Exec S B
  m >> n = m >>= λ _. n

module _ {ℓ κ} {S A B : Type ℓ} where
  pub Ends-lift-bind :
      (r : Result A) (f : A → Exec S B) (s : S) (E : Bytes → S → Type κ) (O : B → S → Type κ)
      → ((e : Bytes) → r ≡ err e → E e s)
      → ((a : A) → r ≡ ok a → Ends (f a) s E O)
      → Ends (lift r >>= f) s E O
  Ends-lift-bind (ok a) f s E O he ho = ho a refl
  Ends-lift-bind (err e) f s E O he ho = he e refl

  continue-Ends :
      (r : Result A) (f : A → Exec S B) (s : S) (E : Bytes → S → Type κ) (M : A → S → Type κ)
      (O : B → S → Type κ)
      → Outcome r (λ e. E e s) (λ a. M a s)
      → ((a : A) → M a s → Ends (f a) s E O)
      → Ends (continue r f) s E O
  continue-Ends (ok a) f s E M O h k = k a h
  continue-Ends (err e) f s E M O h k = h

  -- The rule for a call and what follows it.
  pub Ends-bind :
      (m : Exec S A) (f : A → Exec S B) (s : S) (E : Bytes → S → Type κ) (M : A → S → Type κ)
      (O : B → S → Type κ)
      → Ends m s E M
      → ((a : A) (s' : S) → M a s' → Ends (f a) s' E O)
      → Ends (m >>= f) s E O
  Ends-bind m f s E M O h k = continue-Ends (m s).0 f (m s).1 E M O h (λ a. k a (m s).1)

wrap-Returns {ℓ} :
    {A : Type ℓ} (f : Bytes → Bytes) (r : Result A) (O : A → Type 0)
    → Outcome r (λ _. Unit {0}) O
    → Outcome (wrap_err f r) (λ _. Unit {0}) O
wrap-Returns f (ok a) O h = h
wrap-Returns f (err e) O h = tt

module _ {ℓ} {S A : Type ℓ} where
  -- A call that may end in any error, or returns with `O`.
  abbrev pub Returns : Exec S A → S → (A → S → Type 0) → Type 0
  Returns m s O = Ends m s (λ _ _. Unit) O

  pub Returns-intro :
      (m : Exec S A) (s : S) (O : A → S → Type 0)
      → ((a : A) → (m s).0 ≡ ok a → O a (m s).1)
      → Returns m s O
  Returns-intro m s O h = Ends-intro m s (λ _ _. Unit) O (λ e k. tt) h

  pub Returns-map_err :
      (f : Bytes → Bytes) (m : Exec S A) (s : S) (O : A → S → Type 0)
      → Returns m s O
      → Returns (map_err f m) s O
  Returns-map_err f m s O h = wrap-Returns f (m s).0 (λ a. O a (m s).1) h
