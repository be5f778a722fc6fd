-- ===== src/Watcher/Discover.antt =====
-- krennic/internal/watcher/watcher.go: DiscoverRepos. What filepath.WalkDir finds under a root is a
-- tree of directories; files, and entries that cannot be read, are passed over and left out.
use director_orson_callan_kr.Base.{
  Bytes, ◌≡◌, refl, Bool, false, not, ◌&&◌, ◌||◌, List, [], ◌∷◌, ◌++◌, any, arith, str_eq,
  str_eq_iff, Bool-cases, inl, inr, if◌then◌else◌,
}
use director_orson_callan_kr.Watcher.Defs.{ignored_dirs}

-- Directories that stand side by side: the first with its path, its name, whether it has a `.git`
-- entry, and what is in it; and then the others.
pub data Dirs : Type 0 where
  no_dirs : Dirs
  directory : Bytes → Bytes → Bool → Dirs → Dirs → Dirs

-- The walk under a root, with what was found before.
unfoldable pub walk : Bytes → Dirs → List Bytes → List Bytes
unfolding str_eq
walk root no_dirs found = found
walk root (directory path name has_git inner others) found =
    let skipped = walk root others found in
    let added = walk root others (found ++ (path ∷ [])) in
    let entered = walk root others (walk root inner found) in
    if any (str_eq name) ignored_dirs && not (str_eq path root)
    then skipped
    else if has_git
    then if any (str_eq path) found then skipped else added
    else entered

-- The roots, each with the directory that stands there.
unfoldable pub discover_repos : List (Bytes × Dirs) → List Bytes → List Bytes
unfolding walk
discover_repos [] found = found
discover_repos ((root, dirs) ∷ roots) found = discover_repos roots (walk root dirs found)

-- No path stands twice in a list.
abbrev pub IsOnce : List Bytes → Type 0
IsOnce [] = Unit
IsOnce (x ∷ xs) = (any (str_eq x) xs ≡ false) × IsOnce xs

any-append :
    (x p : Bytes) (xs : List Bytes)
    → any (str_eq x) (xs ++ (p ∷ [])) ≡ (any (str_eq x) xs || str_eq x p)
any-append x p [] = ground arith
any-append x p (y ∷ xs) = ground (arith, any-append x p xs)

append-IsOnce :
    (p : Bytes) (xs : List Bytes) → any (str_eq p) xs ≡ false → IsOnce xs → IsOnce (xs ++ (p ∷ []))
append-IsOnce p [] h k = (refl, tt)
append-IsOnce p (x ∷ xs) h k = (
  ground (arith, any-append x p xs, k.0, h, str_eq_iff p x, str_eq_iff x p),
  append-IsOnce p xs (ground (arith, h)) k.1,
)

walk-IsOnce :
    (root : Bytes) (dirs : Dirs) (found : List Bytes) → IsOnce found → IsOnce (walk root dirs found)
unfolding walk
walk-IsOnce root no_dirs found h = h
walk-IsOnce root (directory path name has_git inner others) found h =
    elim (Bool-cases (any (str_eq name) ignored_dirs && not (str_eq path root))) [
      | inl e ↦ rw e (walk-IsOnce root others found h)
      | inr e ↦ elim (Bool-cases has_git) [
        | inr g ↦
            rw (e, g)
              (walk-IsOnce root others (walk root inner found) (walk-IsOnce root inner found h))
        | inl g ↦ elim (Bool-cases (any (str_eq path) found)) [
          | inl n ↦ rw (e, g, n) (walk-IsOnce root others found h)
          | inr n ↦
              rw (e, g, n)
                (walk-IsOnce root others (found ++ (path ∷ [])) (append-IsOnce path found n h))
        ]
      ]
    ]

-- DiscoverRepos names no repository twice.
discover_repos-IsOnce :
    (roots : List (Bytes × Dirs)) (found : List Bytes)
    → IsOnce found
    → IsOnce (discover_repos roots found)
unfolding discover_repos
discover_repos-IsOnce [] found h = h
discover_repos-IsOnce ((root, dirs) ∷ roots) found h =
    discover_repos-IsOnce roots (walk root dirs found) (walk-IsOnce root dirs found h)
