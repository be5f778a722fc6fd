-- ===== src/Watcher/Defs.antt =====
-- krennic/internal/watcher/watcher.go: which repository a changed path belongs to, and which paths
-- are ignored, on a system whose separator is `/`.
use director_orson_callan_kr.Base.{
  Bytes, Bool, ◌&&◌, ◌||◌, List, [], ◌∷◌, ◌++◌, any, ltb, length, has_prefix, str_eq, split, utf8,
  if◌then◌else◌,
}

abbrev pub ignored_dirs : List Bytes
ignored_dirs =
    utf8 ".git"
    ∷ utf8 "node_modules"
    ∷ utf8 "vendor"
    ∷ utf8 "dist"
    ∷ utf8 "build"
    ∷ utf8 "target"
    ∷ utf8 ".venv"
    ∷ utf8 "venv"
    ∷ utf8 "__pycache__"
    ∷ utf8 ".idea"
    ∷ utf8 ".vscode"
    ∷ utf8 ".next"
    ∷ utf8 ".cache"
    ∷ utf8 "out"
    ∷ utf8 ".gradle"
    ∷ utf8 ".mvn"
    ∷ []

unfoldable pub is_ignored : Bytes → Bool
unfolding split str_eq
is_ignored path = any (λ part. any (str_eq part) ignored_dirs) (split b'/' path)

-- Whether a root contains a path.
unfoldable pub contains : Bytes → Bytes → Bool
unfolding has_prefix str_eq
contains path root = str_eq path root || has_prefix path (root ++ utf8 "/")

-- The loop of repoRootFor.
unfoldable pub longest_root : Bytes → List Bytes → Bytes → Bytes
unfolding contains
longest_root path [] best = best
longest_root path (root ∷ roots) best =
    longest_root path roots
      (if contains path root && ltb (length best) (length root) then root else best)

unfoldable pub repo_root_for : List Bytes → Bytes → Bytes
unfolding longest_root
repo_root_for repos path = longest_root path repos []
