-- ===== src/Git/Process.antt =====
-- krennic/internal/gitxport/git.go: how git is run, and the queries that no other module has. The
-- process itself is a parameter.
use director_orson_callan_kr.Base.{
  ℕ, Bytes, Bool, false, Option, none, some, List, [], ◌∷◌, ◌++◌, Result, ok, err, Exec, utf8, join,
  split, str_eq, trim_space, length, if◌then◌else◌,
}
use director_orson_callan_kr.Git.Shadow.{Runner}
use director_orson_callan_kr.Git.Tree.{Repository}

-- How a process ended: the text of the error of cmd.Run, if there is one, and what it wrote.
pub record Ran : Type 0 where
  pub failure : Option Bytes
  pub stdout : Bytes
  pub stderr : Bytes

-- A run of git with variables added to the environment, the inherited one if there are none, and the
-- arguments, on a state of the machine.
abbrev pub Spawn : Type 0 → Type 0
Spawn G = List Bytes → List Bytes → G → Ran × G

-- The text and the error of a run.
unfoldable pub outcome : List Bytes → Ran → Result Bytes
unfolding join trim_space
outcome args ran = elim ran.failure [
  | none ↦ ok (trim_space ran.stdout)
  | some e ↦ err (
      utf8 "git "
      ++ (join args (utf8 " ") ++ (utf8 ": " ++ (e ++ (utf8 ": " ++ trim_space ran.stderr)))))
]

module _ {G : Type 0} (spawn : Spawn G) (root : Bytes) where
  unfoldable pub run_env : List Bytes → List Bytes → Exec G Bytes
  unfolding outcome
  run_env env args g =
      let (ran, g') = spawn env (utf8 "-C" ∷ root ∷ args) g in (outcome args ran, g')

  -- The commands of Git.Shadow, on git itself.
  abbrev pub runner : (Bytes → Bytes) → Bytes → Runner G
  runner quote ssh_key = record { run = run_env; quote = quote; ssh_key = ssh_key }

  -- The queries of Git.Tree, on one state of the machine.
  abbrev pub repository : (Bytes → Option Bytes) → G → Repository
  repository read_file g = record { run = λ args. (run_env [] args g).0; read_file = read_file }

module _ (repo : Repository) where
  unfoldable pub top_level : Result Bytes
  top_level = repo.run (utf8 "rev-parse" ∷ utf8 "--show-toplevel" ∷ [])

  unfoldable pub is_clean : Bool
  unfolding str_eq
  is_clean = elim (repo.run (utf8 "status" ∷ utf8 "--porcelain" ∷ [])) [
    | ok out ↦ str_eq out []
    | err e ↦ false
  ]

  unfoldable pub stash_count : ℕ
  unfolding str_eq split
  stash_count = elim (repo.run (utf8 "stash" ∷ utf8 "list" ∷ [])) [
    | ok out ↦ if str_eq out [] then 0 else length (split b'\n' out)
    | err e ↦ 0
  ]
