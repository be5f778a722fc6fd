-- ===== src/Watcher/Examples.antt =====
-- The theorems on krennic/internal/watcher/watcher.go at nested roots.
use director_orson_callan_kr.Base.{
  Bytes, ◌≡◌, refl, true, List, [], ◌∷◌, utf8, str_eq, split, has_prefix,
}
use director_orson_callan_kr.Watcher.Defs.{is_ignored, contains, longest_root, repo_root_for}

abbrev roots : List Bytes
roots = utf8 "/w" ∷ utf8 "/w/app" ∷ utf8 "/x" ∷ []

inner_root : repo_root_for roots (utf8 "/w/app/m.go") ≡ utf8 "/w/app"
unfolding repo_root_for longest_root contains str_eq has_prefix
inner_root = refl

outside : repo_root_for roots (utf8 "/wx") ≡ []
unfolding repo_root_for longest_root contains str_eq has_prefix
outside = refl

ignores_vendor : is_ignored (utf8 "/w/vendor/a.go") ≡ true
unfolding is_ignored split str_eq
ignores_vendor = refl
