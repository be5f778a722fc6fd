-- ===== src/Git/Examples.antt =====
-- The theorems on krennic/internal/gitxport at a small repository.
use director_orson_callan_kr.Base.{
  Bytes, ◌≡◌, refl, Bool, some, List, [], ◌∷◌, utf8, ok, err, Outcome, Lacks, str_eq, if◌then◌else◌,
  arith, replace_all, trim_right_by,
}
use director_orson_callan_kr.Git.Lines.{newline}
use director_orson_callan_kr.Git.Refs.{
  shadow_ref_name, branch_from_shadow_ref, branch_from_shadow_ref-shadow_ref_name,
}
use director_orson_callan_kr.Git.Tree.{
  Repository, default_diff_options, raw_diff, working_tree_diff,
}
use director_orson_callan_kr.Git.Withheld.{IsWithheld, working_tree_diff-IsWithheld}

abbrev deny_env : Bytes → Bool
deny_env path = str_eq path (utf8 ".env")

-- A diff of two files, one of them denied.
abbrev two_files : Bytes
two_files =
    utf8
      "diff --git a/.env b/.env\n--- a/.env\n+++ b/.env\n@@ -1 +1 @@\n-A\n+B\ndiff --git a/m.go b/m.go\n--- a/m.go\n+++ b/m.go\n@@ -1 +1,2 @@ func main\n x\n+y"

abbrev head_or : List Bytes → Bytes
head_or [] = []
head_or (a ∷ rest) = a

abbrev repo : Repository
repo = record {
  run = λ args.
      if str_eq (head_or args) (utf8 "diff") then ok two_files else ok (utf8 ".env\nnew.go");
  read_file = λ path. some (utf8 "a\nb");
}

abbrev keep : Bytes → Bytes
keep s = s

working_tree_diff-IsWithheld_example :
    Outcome
      (working_tree_diff repo deny_env keep default_diff_options)
      (λ e. raw_diff repo deny_env keep default_diff_options ≡ err e)
      (IsWithheld deny_env)
working_tree_diff-IsWithheld_example =
    working_tree_diff-IsWithheld repo deny_env keep default_diff_options

-- Each line becomes three stars.
abbrev stars : Bytes → Bytes
stars s = utf8 "***"

stars-Lacks : (ln : Bytes) → Lacks newline ln → Lacks newline (stars ln)
stars-Lacks ln h = ground arith

abbrev patch : Bytes
patch = utf8 "@@ -1 +1 @@\n-A=1\n+A=2\n"

branch_from_shadow_ref-shadow_ref_name_example :
    branch_from_shadow_ref
      (shadow_ref_name (utf8 "refs/krennic") (utf8 "ada") (utf8 "app") (utf8 "fix/login"))
      (utf8 "refs/krennic")
      (utf8 "ada")
      (utf8 "app")
    ≡ utf8 "fix-login"
unfolding replace_all trim_right_by
branch_from_shadow_ref-shadow_ref_name_example =
    branch_from_shadow_ref-shadow_ref_name (utf8 "refs/krennic") (utf8 "ada") (utf8 "app") b'f'
      (utf8 "ix/login") refl
