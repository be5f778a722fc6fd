-- ===== src/Base/Splits.antt =====
-- Texts that are split, and tests on appended lists.
use Prim.Native.Nat.{ℕ}
use mathlib.Core.Path.{◌≡◌, refl}
use mathlib.Core.Logic.{inl, inr}
use mathlib.Core.Bool.{Bool, ◌||◌}
use mathlib.Core.List.{List, [], ◌∷◌, ◌++◌}
use native.Mathlib.Omega.{arith}
use director_orson_callan_kr.Base.Tests.{Bytes, ◌==◌, Bool-cases}
use director_orson_callan_kr.Base.Lists.{any, Lacks}
use director_orson_callan_kr.Base.Text.{split}

pub any-append : (f : Bytes → Bool) (xs ys : List Bytes) → any f (xs ++ ys) ≡ (any f xs || any f ys)
any-append f [] ys = refl
any-append f (x ∷ xs) ys = ground (arith, any-append f xs ys)

split-parts : (sep : ℕ) (s : Bytes) → (p : Bytes) × (ps : List Bytes) × (split sep s ≡ p ∷ ps)
unfolding split
split-parts sep [] = ([], [], refl)
split-parts sep (c ∷ s) =
    let (p, ps, e) = split-parts sep s in
    elim (Bool-cases (c == sep)) [
      | inl same ↦ ([], p ∷ ps, rw (e, same) refl)
      | inr other ↦ (c ∷ p, ps, rw (e, other) refl)
    ]

pub split-append : (sep : ℕ) (s t : Bytes) → split sep (s ++ (sep ∷ t)) ≡ split sep s ++ split sep t
unfolding split
split-append sep [] t = let (p, ps, e) = split-parts sep t in rw e (ground arith)
split-append sep (c ∷ s) t =
    let (p, ps, e) = split-parts sep s in rw (split-append sep s t, e) (ground arith)

-- A text without the separator is one part.
pub split-one : (sep : ℕ) (s : Bytes) → Lacks sep s → split sep s ≡ s ∷ []
unfolding split
split-one sep [] h = refl
split-one sep (c ∷ s) h = ground (arith, split-one sep s h.1, h.0)
