-- ===== src/Git/Refs.antt =====
-- The names of shadow refs: ShadowRefName of krennic/internal/gitxport/shadow.go and
-- branchFromShadowRef of krennic/cmd/krennic/admin.go; and ChangedPaths of
-- krennic/internal/gitxport/git.go.
use director_orson_callan_kr.Base.{
  ℕ, ◌+◌, Bytes, ◌≡◌, refl, true, ◌&&◌, none, some, List, [], ◌∷◌, ◌++◌, arith, ◌==◌, ltb, length,
  length-append, drop, if◌then◌else◌, utf8, index, has_prefix, replace_all, trim_right_by,
  trim_space, Result, ok, err,
}
use director_orson_callan_kr.Git.Tree.{Repository, split_lines}

-- `namespace/user/repo/`
abbrev pub ref_prefix : Bytes → Bytes → Bytes → Bytes
ref_prefix namespace user repo =
    namespace ++ (utf8 "/" ++ (user ++ (utf8 "/" ++ (repo ++ utf8 "/"))))

unfoldable pub shadow_ref_name : Bytes → Bytes → Bytes → Bytes → Bytes
unfolding replace_all trim_right_by
shadow_ref_name namespace user repo branch =
    ref_prefix (trim_right_by (λ c. c == b'/') namespace) user repo ++ replace_all branch b'/' b'-'

unfoldable pub branch_from_shadow_ref : Bytes → Bytes → Bytes → Bytes → Bytes
unfolding has_prefix
branch_from_shadow_ref ref namespace user repo =
    let prefix = ref_prefix namespace user repo in
    if ltb (length prefix) (length ref) && has_prefix ref prefix
    then drop (length prefix) ref
    else []

-- A line of `git status --porcelain`.
unfoldable pub changed_path : Bytes → Bytes
unfolding index trim_space
changed_path ln =
    let p = trim_space (drop 3 ln) in
    elim (index p (utf8 " -> ")) [ none ↦ p | some i ↦ drop (i + 4) p ]

unfoldable pub collect_paths : List Bytes → List Bytes
unfolding changed_path
collect_paths [] = []
collect_paths (ln ∷ lns) =
    let rest = collect_paths lns in if ltb (length ln) 4 then rest else changed_path ln ∷ rest

paths_of : Result Bytes → List Bytes
unfolding collect_paths split_lines
paths_of (err e) = []
paths_of (ok out) = collect_paths (split_lines out)

unfoldable pub changed_paths : Repository → List Bytes
unfolding paths_of
changed_paths repo =
    paths_of (repo.run (utf8 "status" ∷ utf8 "--porcelain" ∷ utf8 "--untracked-files=all" ∷ []))

has_prefix-append : (p s : Bytes) → has_prefix (p ++ s) p ≡ true
unfolding has_prefix
has_prefix-append [] s = refl
has_prefix-append (c ∷ p) s = ground (arith, has_prefix-append p s)

drop-append : (p s : Bytes) → drop (length p) (p ++ s) ≡ s
drop-append [] s = refl
drop-append (c ∷ p) s = drop-append p s

behind_prefix :
    (p : Bytes) (c : ℕ) (s : Bytes)
    → (if ltb (length p) (length (p ++ (c ∷ s))) && has_prefix (p ++ (c ∷ s)) p
        then drop (length p) (p ++ (c ∷ s))
        else [])
      ≡ c ∷ s
behind_prefix p c s =
    ground (arith, has_prefix-append p (c ∷ s), drop-append p (c ∷ s), length-append p (c ∷ s))

-- A ref that ShadowRefName makes names the branch it was made for, with its slashes as dashes, if
-- the namespace does not end in a slash and the branch is not empty.
pub branch_from_shadow_ref-shadow_ref_name :
    (namespace user repo : Bytes) (c : ℕ) (branch : Bytes)
    → trim_right_by (λ c. c == b'/') namespace ≡ namespace
    → branch_from_shadow_ref (shadow_ref_name namespace user repo (c ∷ branch)) namespace user repo
      ≡ replace_all (c ∷ branch) b'/' b'-'
unfolding branch_from_shadow_ref shadow_ref_name replace_all
branch_from_shadow_ref-shadow_ref_name namespace user repo c branch h = rw h (
    behind_prefix (ref_prefix namespace user repo) (if c == b'/' then b'-' else c)
      (replace_all branch b'/' b'-'))
