-- ===== src/Git/GcForeign.antt =====
-- What gc does to the shadow refs of other users and other repositories.
use director_orson_callan_kr.Base.{
  List, Bytes, ◌≡◌, refl, true, false, ◌&&◌, [], ◌∷◌, ◌++◌, Lacks, str_eq, str_eq_iff, has_prefix,
  replace_all, trim_right_by, ◌==◌, arith, Bool-cases, inl, inr, append_assoc, ap, ◌∙◌,
}
use director_orson_callan_kr.Git.Refs.{ref_prefix, shadow_ref_name, branch_from_shadow_ref}
use director_orson_callan_kr.Git.GcKept.{is_dead}

has_prefix-common : (n s p : Bytes) → has_prefix (n ++ s) (n ++ p) ≡ has_prefix s p
unfolding has_prefix
has_prefix-common [] s p = refl
has_prefix-common (c ∷ n) s p = ground (arith, has_prefix-common n s p)

-- Two texts that begin with a part and a slash.
has_prefix-part :
    (u v s p : Bytes)
    → Lacks b'/' u
    → Lacks b'/' v
    → has_prefix (u ++ (b'/' ∷ s)) (v ++ (b'/' ∷ p)) ≡ true
    → (u ≡ v) × (has_prefix s p ≡ true)
unfolding has_prefix
has_prefix-part [] [] s p h k q = (refl, ground (arith, q))
has_prefix-part [] (c ∷ v) s p h k q = absurd (k.0 (ground (arith, q)))
has_prefix-part (c ∷ u) [] s p h k q = absurd (h.0 (ground (arith, q)))
has_prefix-part (c ∷ u) (d ∷ v) s p h k q =
    let (same, rest) = has_prefix-part u v s p h.1 k.1 (ground (arith, q)) in
    (ground (arith, q, same), rest)

-- A ref of a user and a repository, with the slashes at the front.
ref_prefix-append :
    (namespace user repo t : Bytes)
    → ref_prefix namespace user repo ++ t
      ≡ namespace ++ (b'/' ∷ (user ++ (b'/' ∷ (repo ++ (b'/' ∷ t)))))
ref_prefix-append namespace user repo t =
    append_assoc namespace _ t
    ∙ ap (λ (s : Bytes). namespace ++ (b'/' ∷ s))
        (append_assoc user _ t ∙ ap (λ (s : Bytes). user ++ (b'/' ∷ s)) (append_assoc repo _ t))

module _ (namespace user repo other_user other_repo : Bytes) (a : Lacks b'/' user)
    (b : Lacks b'/' repo) (c : Lacks b'/' other_user) (d : Lacks b'/' other_repo)
    (other : (str_eq other_user user && str_eq other_repo repo) ≡ false) where
  same_owner :
      (t : Bytes)
      → has_prefix
          (ref_prefix namespace other_user other_repo ++ t)
          (ref_prefix namespace user repo)
        ≡ true
      → (other_user ≡ user) × (other_repo ≡ repo)
  unfolding has_prefix
  same_owner t h =
      let k : has_prefix (other_user ++ (b'/' ∷ (other_repo ++ (b'/' ∷ t))))
            (user ++ (b'/' ∷ (repo ++ (b'/' ∷ []))))
          ≡ true =
        rw (ref_prefix-append namespace other_user other_repo t, has_prefix-common) at h in
      let (e, rest) = has_prefix-part other_user user _ _ c a k in
      (e, (has_prefix-part other_repo repo t [] d b rest).0)

  foreign_prefix :
      (t : Bytes)
      → has_prefix
          (ref_prefix namespace other_user other_repo ++ t)
          (ref_prefix namespace user repo)
        ≡ false
  foreign_prefix t =
      elim (Bool-cases (
        has_prefix (ref_prefix namespace other_user other_repo ++ t)
          (ref_prefix namespace user repo))) [
            | inr e ↦ e
            | inl e ↦
                let (p, q) = same_owner t e in
                ground
                  (arith, (str_eq_iff other_user user).1 p, (str_eq_iff other_repo repo).1 q, other)
          ]

  -- The ref of another user, or of another repository, names no branch.
  foreign_ref :
      (branch : Bytes)
      → trim_right_by (λ c. c == b'/') namespace ≡ namespace
      → branch_from_shadow_ref
          (shadow_ref_name namespace other_user other_repo branch)
          namespace
          user
          repo
        ≡ []
  unfolding branch_from_shadow_ref shadow_ref_name
  foreign_ref branch trimmed =
      rw trimmed (ground (arith, foreign_prefix (replace_all branch b'/' b'-')))

-- gc takes no ref of another user or of another repository for dead.
pub foreign_dead :
    (namespace user repo other_user other_repo : Bytes)
    → Lacks b'/' user
    → Lacks b'/' repo
    → Lacks b'/' other_user
    → Lacks b'/' other_repo
    → (str_eq other_user user && str_eq other_repo repo) ≡ false
    → (branch : Bytes) (live : List Bytes) → trim_right_by (λ c. c == b'/') namespace ≡ namespace
    → is_dead namespace user repo live (shadow_ref_name namespace other_user other_repo branch)
      ≡ false
unfolding str_eq
foreign_dead namespace user repo other_user other_repo a b c d other branch live trimmed =
    rw (foreign_ref namespace user repo other_user other_repo a b c d other branch trimmed) refl
