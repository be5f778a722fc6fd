-- ===== src/Git/ProcessExamples.antt =====
-- The theorems on krennic/internal/gitxport/git.go at what git prints.
use director_orson_callan_kr.Base.{
  Bytes, ◌≡◌, refl, false, none, some, if◌then◌else◌, List, [], ◌∷◌, ◌++◌, ok, err, pos, utf8,
  arith, index, str_eq, join,
}
use director_orson_callan_kr.Ai.Prompts.{decimal}
use director_orson_callan_kr.Git.Tree.{Repository}
use director_orson_callan_kr.Git.Refs.{changed_paths}
use director_orson_callan_kr.Git.Process.{
  Spawn, run_env, repository, top_level, is_clean, stash_count,
}
use director_orson_callan_kr.Git.Version.{version, version-decimal}
use director_orson_callan_kr.Git.Porcelain.{changed_paths-entry}

-- Git 2.39.5 in a working tree with one change that is not staged, and two stashes.
abbrev prints : List Bytes → Bytes
prints args =
    if str_eq (join args (utf8 " ")) (utf8 "-C /w version")
    then utf8 "git version 2.39.5 (Apple Git-154)\n"
    else if str_eq (join args (utf8 " ")) (utf8 "-C /w stash list")
    then utf8 "stash@{0}: a\nstash@{1}: b\n"
    else utf8 " M main.go\n"

abbrev git : Spawn Unit
git env args g = (record { failure = none; stdout = prints args; stderr = [] }, g)

abbrev work : Repository
work = repository git (utf8 "/w") (λ _. none) tt

work_is_dirty : (is_clean work ≡ false) × (stash_count work ≡ 2)
unfolding is_clean stash_count run_env str_eq join
work_is_dirty = (refl, refl)

-- A git that is not there.
abbrev absent : Spawn Unit
absent env args g =
    (record { failure = some (utf8 "exit status 127"); stdout = []; stderr = utf8 "no git\n" }, g)

no_git :
    top_level (repository absent (utf8 "/w") (λ _. none) tt)
    ≡ err (utf8 "git rev-parse --show-toplevel: exit status 127: no git")
unfolding top_level run_env
no_git = refl

printed_version :
    work.run (utf8 "version" ∷ [])
    ≡ ok (
        utf8 "git version "
        ++ ((decimal 2 ++ (b'.' ∷ (decimal 39 ++ utf8 ".5"))) ++ utf8 " (Apple Git-154)"))
unfolding run_env decimal str_eq join
printed_version = refl

version-decimal_example : version work ≡ (pos 2, pos 39)
version-decimal_example =
    version-decimal work 2 39 (utf8 ".5") (utf8 " (Apple Git-154)") printed_version (omega arith)
      (omega arith) (ground arith) refl refl

printed_status :
    (git []
      (utf8 "-C"
        ∷ utf8 "/w"
        ∷ utf8 "status"
        ∷ utf8 "--porcelain"
        ∷ utf8 "--untracked-files=all"
        ∷ [])
      tt).0
    ≡ record { failure = none; stdout = utf8 " M main.go\n"; stderr = [] }
unfolding str_eq join
printed_status = refl

plain_name : index (utf8 "main.go") (utf8 " -> ") ≡ none
unfolding index
plain_name = refl

changed_paths-entry_example : changed_paths work ≡ utf8 "ain.go" ∷ []
changed_paths-entry_example =
    changed_paths-entry git (utf8 "/w") (λ _. none) tt b' ' b'M' b'm' b'a' b'o' (utf8 "in.g")
      printed_status refl refl refl refl (ground arith) plain_name
