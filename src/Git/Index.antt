-- ===== src/Git/Index.antt =====
-- What git documents of an index, and the paths that are still to be taken away from it.
use director_orson_callan_kr.Base.{
  Bytes, ◌≡◌, inl, inr, Bool, false, ◌&&◌, not, List, [], ◌∷◌, arith, any, All, Bool-cases, ok, ℕ,
  ltb, ◌||◌, ◌==◌, true, sym, str_eq, str_eq_iff, if◌then◌else◌,
}
use director_orson_callan_kr.Git.Tree.{split_lines}
use director_orson_callan_kr.Git.Shadow.{Runner, cached_args, rm_args, tree_args, commit_args}

-- A byte that git prints as it is and that is no part of a pattern: printable ASCII but for blanks,
-- quotes, backslashes, colons, stars, question marks and brackets.
abbrev is_plain_byte : ℕ → Bool
is_plain_byte c =
    ltb 32 c && ltb c 127 && not (c == 34 || c == 92 || c == 58 || c == 42 || c == 63 || c == 91)

unfoldable pub is_plain : Bytes → Bool
is_plain [] = true
is_plain (c ∷ path) = is_plain_byte c && is_plain path

-- A list without the paths that a pattern matches.
unfoldable pub without : (Bytes → Bool) → List Bytes → List Bytes
without p [] = []
without p (x ∷ xs) = let rest = without p xs in if p x then rest else x ∷ rest

-- What git documents of an index, with the paths that a pattern matches: ls-files prints each of its
-- plain paths as it is, a plain path as a pattern matches itself, rm --cached takes away what its
-- pattern matches, write-tree writes a tree of the staged paths, and a commit is of its tree. Of
-- other paths nothing is said: git quotes those outside ASCII, and reads others as wider patterns.
pub record IsIndex {G : Type 0} (r : Runner G) (env : List Bytes) (matches : Bytes → Bytes → Bool)
    (staged : G → List Bytes) (paths : Bytes → List Bytes) : Type 0 where
  pub lists :
      (g : G) (out : Bytes)
      → (r.run env cached_args g).0 ≡ ok out
      → All (λ x. (is_plain x && not (any (str_eq x) (split_lines out))) ≡ false) (staged g)
        × (staged (r.run env cached_args g).1 ≡ staged g)
  pub itself : (path : Bytes) → is_plain path ≡ true → matches path path ≡ true
  pub removes :
      (g : G) (path out : Bytes)
      → (r.run env (rm_args path) g).0 ≡ ok out
      → staged (r.run env (rm_args path) g).1 ≡ without (matches path) (staged g)
  pub writes : (g : G) (tree : Bytes) → (r.run env tree_args g).0 ≡ ok tree → paths tree ≡ staged g
  pub commits :
      (g : G) (tree parent msg sha : Bytes)
      → (r.run [] (commit_args tree parent msg) g).0 ≡ ok sha
      → paths sha ≡ paths tree

module _ (deny : Bytes → Bool) where
  -- A plain path that is denied.
  abbrev pub is_secret : Bytes → Bool
  is_secret x = deny x && is_plain x

  -- A path that is no secret, or is still to be taken away.
  abbrev pub Covered : List Bytes → Bytes → Type 0
  Covered ps x = (is_secret x && not (any (str_eq x) ps)) ≡ false

  pub Covered-without :
      (matches : Bytes → Bytes → Bool)
      → ((path : Bytes) → is_plain path ≡ true → matches path path ≡ true)
      → (p : Bytes) (ps xs : List Bytes) → All (Covered (p ∷ ps)) xs
      → All (Covered ps) (without (matches p) xs)
  unfolding without
  Covered-without matches itself p ps [] h = tt
  Covered-without matches itself p ps (x ∷ xs) h = elim (Bool-cases (matches p x)) [
    | inl e ↦ rw e (Covered-without matches itself p ps xs h.1)
    | inr e ↦ rw e (spared x e h.0, Covered-without matches itself p ps xs h.1)
  ]
    where
      spared : (x : Bytes) → matches p x ≡ false → Covered (p ∷ ps) x → Covered ps x
      spared x e h = elim (Bool-cases (is_plain x)) [
        | inr n ↦ ground (arith, n)
        | inl y ↦ elim (Bool-cases (str_eq x p)) [
          | inr n ↦ ground (arith, h, n)
          | inl same ↦
              let k : matches p x ≡ true = rw (sym ((str_eq_iff x p).0 same)) (itself x y) in cc
        ]
      ]

  pub Covered-allowed :
      (p : Bytes) (ps xs : List Bytes)
      → deny p ≡ false
      → All (Covered (p ∷ ps)) xs
      → All (Covered ps) xs
  Covered-allowed p ps [] d h = tt
  Covered-allowed p ps (x ∷ xs) d h =
      (ground (arith, h.0, str_eq_iff x p), Covered-allowed p ps xs d h.1)

  pub Covered-nil : (xs : List Bytes) → All (Covered []) xs → All (λ x. is_secret x ≡ false) xs
  Covered-nil [] h = tt
  Covered-nil (x ∷ xs) h = (ground (arith, h.0), Covered-nil xs h.1)

  pub Covered-listed :
      (ps xs : List Bytes)
      → All (λ x. (is_plain x && not (any (str_eq x) ps)) ≡ false) xs
      → All (Covered ps) xs
  Covered-listed ps [] h = tt
  Covered-listed ps (x ∷ xs) h = (ground (arith, h.0), Covered-listed ps xs h.1)
