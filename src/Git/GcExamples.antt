-- ===== src/Git/GcExamples.antt =====
-- The theorem on gc at a small repository.
use director_orson_callan_kr.Base.{
  Bytes, Bool, true, ◌≡◌, refl, List, [], ◌∷◌, ok, err, Exec, utf8, str_eq, if◌then◌else◌, arith,
  All, ◌==◌, not, ◌&&◌, trim_right_by, replace_all,
}
use director_orson_callan_kr.Git.Tree.{split_lines, text_or}
use director_orson_callan_kr.Git.Shadow.{local_branches, output}
use director_orson_callan_kr.Git.Refs.{shadow_ref_name}
use director_orson_callan_kr.Git.Gc.{Root, listed_branches, gc_roots}
use director_orson_callan_kr.Git.GcKept.{IsRefStore}
use director_orson_callan_kr.Git.GcRoots.{IsClone, gc_roots-keeps}

abbrev kept : Bytes
kept = utf8 "refs/krennic/ada/app/fix-login"

-- Two shadow refs and one branch; the state says whether the first ref is there.
abbrev run : List Bytes → List Bytes → Exec Bool Bytes
run env (verb ∷ a1 ∷ a2 ∷ []) g =
    if str_eq verb (utf8 "update-ref")
    then (ok [], g && not (str_eq a2 kept))
    else if str_eq a2 (utf8 "refs/heads")
    then (ok (utf8 "fix/login"), g)
    else (ok (utf8 "refs/krennic/ada/app/fix-login\nrefs/krennic/ada/app/old"), g)
run env _ g = (err [], g)

abbrev root : Root Bool
root = record {
  runner = record { run = run; quote = λ s. s; ssh_key = [] };
  repo_name = utf8 "app";
}

-- The state itself.
abbrev there : Bool → Bool
there g = g

git : IsRefStore root.runner there kept
unfolding str_eq
git = record {
  lists = λ format pattern g. ground arith;
  removes = λ other g n. ground (arith, n);
  pushes = λ other g n. refl;
}

namespace_trimmed : trim_right_by (λ c. c == b'/') (utf8 "refs/krennic") ≡ utf8 "refs/krennic"
unfolding trim_right_by
namespace_trimmed = refl

-- A second clone of the same base name, which has the same branch.
abbrev second : Root Bool
second = record root { runner = record { run = run; quote = λ s. s; ssh_key = utf8 "key" } }

keyed : IsRefStore second.runner there kept
unfolding str_eq
keyed = record {
  lists = λ format pattern g. ground arith;
  removes = λ other g n. ground (arith, n);
  pushes = λ other g n. refl;
}

abbrev IsAda : Root Bool → Type 0
IsAda = IsClone there (utf8 "refs/krennic") (utf8 "ada") (utf8 "app") b'f' (utf8 "ix/login")

clones : All IsAda (root ∷ second ∷ [])
unfolding shadow_ref_name replace_all trim_right_by local_branches split_lines str_eq output text_or
    listed_branches
clones = (
  record { stores = git; named = omega arith; lists = λ g e. refl },
  (record { stores = keyed; named = omega arith; lists = λ g e. refl }, tt),
)

gc_roots-keeps_example :
    there (gc_roots (utf8 "refs/krennic") (utf8 "ada") (root ∷ second ∷ []) 0 true).1 ≡ there true
gc_roots-keeps_example =
    gc_roots-keeps there (utf8 "refs/krennic") (utf8 "ada") (utf8 "app") b'f' (utf8 "ix/login")
      namespace_trimmed (omega arith) (omega arith) (root ∷ second ∷ []) 0 true clones
