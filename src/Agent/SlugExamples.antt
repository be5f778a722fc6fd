-- ===== src/Agent/SlugExamples.antt =====
-- The theorem on gc and other users at a small repository.
use director_orson_callan_kr.Base.{
  Bytes, Bool, true, ◌≡◌, refl, none, some, List, [], ◌∷◌, ok, err, Exec, utf8, str_eq,
  if◌then◌else◌, arith, not, ◌&&◌, trim_right_by, replace_all, trim_space, to_lower,
}
use director_orson_callan_kr.Git.Refs.{shadow_ref_name}
use director_orson_callan_kr.Git.Gc.{Root, gc_roots}
use director_orson_callan_kr.Git.GcKept.{IsRefStore}
use director_orson_callan_kr.Git.GcRoots.{IsForeign}
use director_orson_callan_kr.Agent.Startup.{sanitize, dashed_runes}
use director_orson_callan_kr.Agent.New.{Machine, user_slug}
use director_orson_callan_kr.Agent.Slug.{gc_roots-others}

abbrev ada : Machine
ada = record { current_user = some (utf8 "CORP\\Ada"); user_variable = []; host = none }

abbrev bob : Machine
bob = record { current_user = none; user_variable = utf8 "bob"; host = none }

-- The state itself.
abbrev there : Bool → Bool
there g = g

-- A repository of ada, where the state says whether a ref of bob is there.
abbrev of_bob : Bytes
of_bob = utf8 "refs/krennic/bob/app/fix-login"

abbrev bob_run : List Bytes → List Bytes → Exec Bool Bytes
bob_run env (verb ∷ a1 ∷ a2 ∷ []) g =
    if str_eq verb (utf8 "update-ref")
    then (ok [], g && not (str_eq a2 of_bob))
    else (ok (utf8 "refs/krennic/ada/app/old\nrefs/krennic/bob/app/fix-login"), g)
bob_run env _ g = (err [], g)

abbrev bob_root : Root Bool
bob_root = record {
  runner = record { run = bob_run; quote = λ s. s; ssh_key = [] };
  repo_name = utf8 "app";
}

bob_git : IsRefStore bob_root.runner there of_bob
unfolding str_eq
bob_git = record {
  lists = λ format pattern g. ground arith;
  removes = λ other g n. ground (arith, n);
  pushes = λ other g n. refl;
}

foreign : IsForeign (utf8 "refs/krennic") (user_slug ada) (user_slug bob) (utf8 "app") bob_root
unfolding str_eq user_slug sanitize dashed_runes to_lower trim_space
foreign = (omega arith, refl)

gc_roots-others_example :
    there (gc_roots (utf8 "refs/krennic") (user_slug ada) (bob_root ∷ bob_root ∷ []) 0 true).1
    ≡ there true
unfolding shadow_ref_name replace_all trim_right_by str_eq user_slug sanitize dashed_runes to_lower
    trim_space
gc_roots-others_example =
    gc_roots-others there ada bob (utf8 "refs/krennic") (utf8 "app") (utf8 "fix/login")
      (bob_root ∷ bob_root ∷ []) (bob_git, (bob_git, tt)) refl (omega arith)
      (foreign, (foreign, tt)) 0 true
