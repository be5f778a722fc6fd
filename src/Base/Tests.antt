-- ===== src/Base/Tests.antt =====
-- Boolean tests on the native numbers, the conditional, and results that may be errors.
use Prim.Native.Nat.{ℕ, compare, Ordering}
use mathlib.Core.Path.{◌≡◌, refl, subst}
use mathlib.Core.Logic.{◌↔◌, ◌⊎◌, inl, inr}
use mathlib.Core.Bool.{Bool, true, false}
use mathlib.Core.Option.{Option, none, some}
use mathlib.Core.List.{List}
use native.Mathlib.Omega.{arith}

abbrev pub ltb : ℕ → ℕ → Bool
ltb a b = elim (compare a b) [ Ordering.lt ↦ true | _ ↦ false ]

abbrev pub leb : ℕ → ℕ → Bool
leb a b = elim (compare a b) [ Ordering.gt ↦ false | _ ↦ true ]

infix 50 ◌==◌
abbrev pub ◌==◌ : ℕ → ℕ → Bool
a == b = elim (compare a b) [ Ordering.eq ↦ true | _ ↦ false ]

infix 1 if◌then◌else◌
abbrev pub if◌then◌else◌ {ℓ} : {A : Type ℓ} → Bool → A → A → A
if true then x else y = x
if false then x else y = y

pub ==_iff : (a b : ℕ) → ((a == b) ≡ true) ↔ (a ≡ b)
==_iff a b = ground arith

-- To split on a computed value and keep the equation.
pub Bool-cases : (b : Bool) → (b ≡ true) ⊎ (b ≡ false)
Bool-cases true = inl refl
Bool-cases false = inr refl

pub Option-cases {ℓ} : {A : Type ℓ} (o : Option A) → (o ≡ none) ⊎ ((a : A) × (o ≡ some a))
Option-cases none = inl refl
Option-cases (some a) = inr (a, refl)

-- The texts of Go are immutable byte strings; an `error` is modelled by its message.
abbrev pub Bytes : Type 0
Bytes = List ℕ

pub data Result {ℓ} (A : Type ℓ) : Type ℓ where
  ok : A → Result A
  err : Bytes → Result A

-- What holds of a result: `E` of its error, or `O` of its value.
pub Result-cases {ℓ} :
    {A : Type ℓ} (r : Result A) → ((e : Bytes) × (r ≡ err e)) ⊎ ((a : A) × (r ≡ ok a))
Result-cases (err e) = inl (e, refl)
Result-cases (ok a) = inr (a, refl)

abbrev pub Outcome {ℓ κ} : {A : Type ℓ} → Result A → (Bytes → Type κ) → (A → Type κ) → Type κ
Outcome (ok a) E O = O a
Outcome (err e) E O = E e

pub Outcome-intro {ℓ κ} :
    {A : Type ℓ} (r : Result A) (E : Bytes → Type κ) (O : A → Type κ)
    → ((e : Bytes) → r ≡ err e → E e)
    → ((a : A) → r ≡ ok a → O a)
    → Outcome r E O
Outcome-intro (ok a) E O he ho = ho a refl
Outcome-intro (err e) E O he ho = he e refl

pub Outcome-ok {ℓ κ} :
    {A : Type ℓ} (r : Result A) (E : Bytes → Type κ) (O : A → Type κ) (a : A)
    → r ≡ ok a
    → Outcome r E O
    → O a
Outcome-ok r E O a h o = subst (λ s. Outcome s E O) h o

pub Outcome-elim {ℓ κ} :
    {A : Type ℓ} (r : Result A) (E : Bytes → Type κ) (O : A → Type κ) (P : Type κ)
    → Outcome r E O
    → ((e : Bytes) → E e → P)
    → ((a : A) → O a → P)
    → P
Outcome-elim (ok a) E O P h he ho = ho a h
Outcome-elim (err e) E O P h he ho = he e h

pub Outcome-map {ℓ κ} :
    {A : Type ℓ} (r : Result A) (E F : Bytes → Type κ) (O P : A → Type κ)
    → Outcome r E O
    → ((e : Bytes) → E e → F e)
    → ((a : A) → O a → P a)
    → Outcome r F P
Outcome-map (ok a) E F O P h he ho = ho a h
Outcome-map (err e) E F O P h he ho = he e h
