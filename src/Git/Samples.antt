-- ===== src/Git/Samples.antt =====
-- A small repository with a secret file.
use director_orson_callan_kr.Base.{
  Bytes, Bool, true, false, ◌≡◌, refl, ap, ◌∙◌, All, any, not, ◌&&◌, subst, sym, str_eq_refl,
  str_eq_iff, Bool-cases, inl, inr, List, [], ◌∷◌, Result, ok, err, Exec, utf8, str_eq,
  if◌then◌else◌,
}
use director_orson_callan_kr.Git.Tree.{split_lines}
use director_orson_callan_kr.Git.Shadow.{Runner, index_env, rm_args, commit_args}
use director_orson_callan_kr.Git.Index.{IsIndex, is_plain, without}

-- An index with the file `a`, and with `.env` if the state is true.
abbrev pub staged : Bool → List Bytes
staged true = utf8 "a" ∷ utf8 ".env" ∷ []
staged false = utf8 "a" ∷ []

abbrev listed : Bool → Bytes
listed true = utf8 "a\n.env"
listed false = utf8 "a"

abbrev tree_of : Bool → Bytes
tree_of true = utf8 "t2"
tree_of false = utf8 "t1"

abbrev pub paths : Bytes → List Bytes
paths tree = if str_eq tree (utf8 "t2") then staged true else staged false

abbrev run : List Bytes → List Bytes → Exec Bool Bytes
run env (verb ∷ []) g = if str_eq verb (utf8 "write-tree") then (ok (tree_of g), g) else (err [], g)
run env (verb ∷ arg ∷ []) g =
    if str_eq verb (utf8 "ls-files")
    then (ok (listed g), g)
    else if str_eq verb (utf8 "add")
    then (ok [], true)
    else (err [], g)
run env (verb ∷ a1 ∷ a2 ∷ a3 ∷ rest) g =
    if str_eq verb (utf8 "commit-tree")
    then (ok a1, g)
    else if str_eq verb (utf8 "rm")
    then removed rest g
    else (err [], g)
  where
    removed : List Bytes → Exec Bool Bytes
    removed (path ∷ []) g = if str_eq path (utf8 ".env") then (ok [], false) else (err [], g)
    removed _ g = (err [], g)
run env _ g = (err [], g)

abbrev pub runner : Runner Bool
runner = record { run = run; quote = λ s. s; ssh_key = [] }

abbrev pub tmp : Bytes
tmp = utf8 "/tmp/i"

listed_lines :
    (g : Bool)
    → All (λ x. (is_plain x && not (any (str_eq x) (split_lines (listed g)))) ≡ false) (staged g)
unfolding split_lines str_eq is_plain
listed_lines true = (refl, (refl, tt))
listed_lines false = (refl, tt)

tree_paths : (g : Bool) → paths (tree_of g) ≡ staged g
unfolding str_eq
tree_paths true = refl
tree_paths false = refl

secret_removed : (g : Bool) → staged false ≡ without (str_eq (utf8 ".env")) (staged g)
unfolding str_eq without
secret_removed true = refl
secret_removed false = refl

the_value : (a b : Bytes) → ◌≡◌ {A = Result Bytes} (ok b) (ok a) → a ≡ b
the_value a b h = cc h

run_removes :
    (g : Bool) (path out : Bytes)
    → (run (index_env tmp) (rm_args path) g).0 ≡ ok out
    → staged (run (index_env tmp) (rm_args path) g).1 ≡ without (str_eq path) (staged g)
unfolding str_eq
run_removes g path out h = elim (Bool-cases (str_eq path (utf8 ".env"))) [
  | inr e ↦ absurd (cc (rw e at h))
  | inl e ↦ rw (e, (str_eq_iff path (utf8 ".env")).0 e) (secret_removed g)
]

run_commits :
    (g : Bool) (tree parent msg sha : Bytes)
    → (run [] (commit_args tree parent msg) g).0 ≡ ok sha
    → paths sha ≡ paths tree
unfolding str_eq
run_commits g tree [] msg sha h = ap paths (the_value sha tree h)
run_commits g tree (c ∷ parent) msg sha h = ap paths (the_value sha tree h)

pub git : IsIndex runner (index_env tmp) str_eq staged paths
unfolding str_eq
git = record {
  lists = λ g out h. (
    subst
        (λ (o : Bytes).
          All (λ x. (is_plain x && not (any (str_eq x) (split_lines o))) ≡ false) (staged g))
        (sym (the_value out (listed g) h)) (listed_lines g),
    refl,
  );
  itself = λ path h. str_eq_refl path;
  removes = run_removes;
  writes = λ g tree h. ap paths (the_value tree (tree_of g) h) ∙ tree_paths g;
  commits = run_commits;
}
