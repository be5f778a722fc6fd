-- ===== src/Watcher/Longest.antt =====
-- What repoRootFor returns.
use director_orson_callan_kr.Base.{
  Bytes, ◌≡◌, refl, subst, true, false, ◌&&◌, List, [], ◌∷◌, arith, any, All, ltb, length, str_eq,
  str_eq_refl, if◌then◌else◌, ◌⊎◌, inl, inr, Bool-cases,
}
use director_orson_callan_kr.Watcher.Defs.{contains, longest_root, repo_root_for}

-- The root of one step of the loop.
abbrev better : Bytes → Bytes → Bytes → Bytes
better path root best = if contains path root && ltb (length best) (length root) then root else best

longest_root-length :
    (path : Bytes) (roots : List Bytes) (best : Bytes)
    → ltb (length (longest_root path roots best)) (length best) ≡ false
unfolding longest_root
longest_root-length path [] best = ground arith
longest_root-length path (root ∷ roots) best =
    elim (Bool-cases (contains path root && ltb (length best) (length root))) [
      | inl e ↦ rw e (ground (arith, e, longest_root-length path roots root))
      | inr e ↦ rw e (longest_root-length path roots best)
    ]

root_not_longer :
    (path root : Bytes) (roots : List Bytes) (best : Bytes)
    → (contains path root && ltb (length (longest_root path (root ∷ roots) best)) (length root))
      ≡ false
unfolding longest_root
root_not_longer path root roots best =
    elim (Bool-cases (contains path root && ltb (length best) (length root))) [
      | inl e ↦ rw e (ground (arith, longest_root-length path roots root))
      | inr e ↦ rw e (ground (arith, e, longest_root-length path roots best))
    ]

longest_root-longest :
    (path : Bytes) (roots : List Bytes) (best : Bytes)
    → All
        (λ root.
          (contains path root && ltb (length (longest_root path roots best)) (length root)) ≡ false)
        roots
unfolding longest_root
longest_root-longest path [] best = tt
longest_root-longest path (root ∷ roots) best =
    (root_not_longer path root roots best, longest_root-longest path roots (better path root best))

the_root :
    (path root best : Bytes)
    → (contains path root && ltb (length best) (length root)) ≡ true
    → root ≡ better path root best
the_root path root best e = rw e refl

the_best :
    (path root best : Bytes)
    → (contains path root && ltb (length best) (length root)) ≡ false
    → best ≡ better path root best
the_best path root best e = rw e refl

-- `best`, or one of the roots, that contains the path.
abbrev pub IsFound : Bytes → List Bytes → Bytes → Bytes → Type 0
IsFound path roots best r = (r ≡ best) ⊎ ((contains path r ≡ true) × (any (str_eq r) roots ≡ true))

IsFound-better :
    (path root : Bytes) (roots : List Bytes) (best r : Bytes)
    → contains path root ≡ true
    → IsFound path roots root r
    → IsFound path (root ∷ roots) best r
IsFound-better path root roots best r c (inl h) =
    inr (rw h c, rw h (ground (arith, str_eq_refl root)))
IsFound-better path root roots best r c (inr h) = inr (h.0, ground (arith, h.1))

IsFound-skip :
    (path root : Bytes) (roots : List Bytes) (best r : Bytes)
    → IsFound path roots best r
    → IsFound path (root ∷ roots) best r
IsFound-skip path root roots best r (inl h) = inl h
IsFound-skip path root roots best r (inr h) = inr (h.0, ground (arith, h.1))

longest_root-IsFound :
    (path : Bytes) (roots : List Bytes) (best : Bytes)
    → IsFound path roots best (longest_root path roots best)
unfolding longest_root
longest_root-IsFound path [] best = inl refl
longest_root-IsFound path (root ∷ roots) best =
    elim (Bool-cases (contains path root && ltb (length best) (length root))) [
      | inl e ↦
          subst (λ b. IsFound path (root ∷ roots) best (longest_root path roots b))
            (the_root path root best e)
            (IsFound-better path root roots best _ (ground (arith, e))
              (longest_root-IsFound path roots root))
      | inr e ↦
          subst (λ b. IsFound path (root ∷ roots) best (longest_root path roots b))
            (the_best path root best e)
            (IsFound-skip path root roots best _ (longest_root-IsFound path roots best))
    ]

-- What repoRootFor returns: the empty text, or one of the roots, that contains the path; and no root
-- that contains the path is longer.
pub repo_root_for-longest :
    (repos : List Bytes) (path : Bytes)
    → IsFound path repos [] (repo_root_for repos path)
      × All
          (λ root.
            (contains path root && ltb (length (repo_root_for repos path)) (length root)) ≡ false)
          repos
unfolding repo_root_for
repo_root_for-longest repos path =
    (longest_root-IsFound path repos [], longest_root-longest path repos [])
