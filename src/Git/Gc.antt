-- ===== src/Git/Gc.antt =====
-- krennic/cmd/krennic/admin.go: the part of the gc command that deletes shadow refs, as commands to
-- git on a state of the repositories.
use director_orson_callan_kr.Base.{
  ℕ, suc, Bytes, Bool, not, ◌&&◌, List, [], ◌∷◌, any, Result, ok, err, str_eq, utf8, if◌then◌else◌,
  replace_all,
}
use director_orson_callan_kr.Git.Shadow.{
  Runner, list_shadow_refs, local_branches, delete_shadow_ref,
}
use director_orson_callan_kr.Git.Refs.{branch_from_shadow_ref}

-- A repository: git in it, and the base of its path.
pub record Root (G : Type 0) : Type 0 where
  pub runner : Runner G
  pub repo_name : Bytes

-- A branch in the form it has in a shadow ref.
abbrev pub dashed : Bytes → Bytes
dashed branch = replace_all branch b'/' b'-'

unfoldable pub is_live : List Bytes → Bytes → Bool
unfolding replace_all
is_live branches branch = any (λ b. str_eq (dashed b) branch) branches

-- The listing, which is empty on an error.
unfoldable pub listed_branches : Result (List Bytes) → List Bytes
listed_branches (ok branches) = branches
listed_branches (err e) = []

unfoldable pub count_deleted : Result (Unit {0}) → ℕ → ℕ
count_deleted (ok _) n = suc n
count_deleted (err e) n = n

module _ {G : Type 0} (namespace user : Bytes) where
  module _ (root : Root G) where
    -- The loop over the shadow refs, with the count so far.
    unfoldable pub delete_dead : List Bytes → List Bytes → ℕ → G → ℕ × G
    unfolding branch_from_shadow_ref is_live count_deleted delete_shadow_ref
    delete_dead live [] n g = (n, g)
    delete_dead live (ref ∷ refs) n g =
        let branch = branch_from_shadow_ref ref namespace user root.repo_name in
        let (r, g') = delete_shadow_ref root.runner (utf8 "ai-remote") ref g in
        let skipped = delete_dead live refs n g in
        let deleted = delete_dead live refs (count_deleted r n) g' in
        if not (str_eq branch []) && not (is_live live branch) then deleted else skipped

    unfoldable pub gc_listed : Result (List Bytes) → ℕ → G → ℕ × G
    unfolding delete_dead local_branches listed_branches
    gc_listed (err e) n g = (n, g)
    gc_listed (ok refs) n g =
        let (branches, g') = local_branches root.runner g in
        delete_dead (listed_branches branches) refs n g'

    unfoldable pub gc_root : ℕ → G → ℕ × G
    unfolding gc_listed list_shadow_refs
    gc_root n g = let (refs, g') = list_shadow_refs root.runner namespace g in gc_listed refs n g'

  -- The loop over the repositories; the result is the number of deleted refs.
  unfoldable pub gc_roots : List (Root G) → ℕ → G → ℕ × G
  unfolding gc_root
  gc_roots [] n g = (n, g)
  gc_roots (root ∷ roots) n g = let (m, g') = gc_root root n g in gc_roots roots m g'
