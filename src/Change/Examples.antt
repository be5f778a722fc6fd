-- ===== src/Change/Examples.antt =====
-- The theorems on krennic/internal/change/builder.go at a small change.
use director_orson_callan_kr.Base.{
  Outcome, false, if◌then◌else◌, ◌&&◌, Bytes, ◌≡◌, ◌≢◌, refl, ◌⊎◌, true, none, List, [], ◌∷◌, map,
  utf8, Result, ok, err, All, str_eq, arith,
}
use director_orson_callan_kr.Model.{Hunk, Developer}
use director_orson_callan_kr.Redact.{new_redactor}
use director_orson_callan_kr.Git.Tree.{Repository, default_diff_options}
use director_orson_callan_kr.Change.Defs.{Builder, Surroundings, hash_input, content_hash, build}
use director_orson_callan_kr.Git.Samples.{staged, paths, runner, tmp, git}
use director_orson_callan_kr.Change.Snapshot.{with_snapshot, IsCleanEvent, build-IsClean}
use director_orson_callan_kr.Change.Content.{content, IsText, content_hash-identifies}

abbrev edit : Hunk
edit = record {
  path = utf8 "m.go";
  language = utf8 "go";
  change_type = utf8 "modified";
  function_context = [];
  patch = utf8 "+x";
}

abbrev moved : Hunk
moved = record edit { language = []; function_context = utf8 "main" }

edit-IsText : All IsText (edit ∷ [])
edit-IsText = ground arith

moved-IsText : All IsText (moved ∷ [])
moved-IsText = ground arith

-- A digest that keeps the text.
abbrev plain : Bytes → Bytes
plain s = s

content_hash-identifies_example :
    (map content (edit ∷ []) ≡ map content (moved ∷ []))
    ⊎ ((hash_input (edit ∷ []) ≢ hash_input (moved ∷ []))
        × (plain (hash_input (edit ∷ [])) ≡ plain (hash_input (moved ∷ []))))
unfolding content_hash hash_input
content_hash-identifies_example =
    content_hash-identifies plain (edit ∷ []) (moved ∷ []) edit-IsText moved-IsText refl

abbrev ada : Developer
ada = record {
  user_slug = utf8 "ada";
  git_name = [];
  git_email = [];
  machine = utf8 "m";
  os_user = utf8 "ada";
}

abbrev builder : Builder
builder = record {
  developer = ada;
  redactor = new_redactor (utf8 ".env" ∷ []) true;
  namespace = utf8 "refs/krennic";
  diff_options = default_diff_options;
}

abbrev answer : List Bytes → Result Bytes
answer [] = err []
answer (a ∷ rest) =
    if str_eq a (utf8 "rev-parse")
    then ok (utf8 "true")
    else ok (
        utf8
          "diff --git a/.env b/.env\n+++ b/.env\n@@ -1 +1 @@\n+B\ndiff --git a/m.go b/m.go\n@@ -1 +1 @@\n+y")

abbrev repo : Repository
repo = record { run = answer; read_file = λ path. none }

abbrev here : Surroundings
here = record {
  regexp = record {
    match_string = λ re s. str_eq re (utf8 "^\\.env$") && str_eq s (utf8 ".env");
    replace_all_string = λ re s t. t;
  };
  digest = plain;
  root = utf8 "/w/app";
  repo_name = utf8 "app";
  now = 5;
  format_rfc3339 = λ t. utf8 "now";
  change_id = utf8 "c1";
  trace_id = utf8 "t1";
  snapshot = λ msg. ok (utf8 "abc");
}

-- The repository has a file that the deny list denies.
build-IsClean_example :
    Outcome
      (build (with_snapshot runner tmp false here builder repo) builder repo)
      (λ _. Unit)
      (IsCleanEvent runner tmp false here builder repo str_eq staged paths git)
build-IsClean_example = build-IsClean runner tmp false here builder repo str_eq staged paths git
