-- ===== src/Git/Shadow.antt =====
-- krennic/internal/gitxport/shadow.go: CreateShadowSnapshot, EnsureRemote, PublishShadow,
-- ListShadowRefs and DeleteShadowRef, as commands to git on a state of the repository. The deny
-- function is there.
use director_orson_callan_kr.Base.{
  Bytes, Bool, true, false, List, [], ◌∷◌, ◌++◌, Result, ok, err, Exec, pure, raise, lift, map_err,
  try_exec, ◌>>=◌, ◌>>◌, str_eq, utf8, if◌then◌else◌,
}
use director_orson_callan_kr.Git.Tree.{split_lines, text_or}

-- `runEnv` on the repository: the environment that is added, the arguments, and the trimmed output.
-- `quote` is the verb %q.
pub record Runner (G : Type 0) : Type 0 where
  pub run : List Bytes → List Bytes → Exec G Bytes
  pub quote : Bytes → Bytes
  pub ssh_key : Bytes

pub record SnapshotResult : Type 0 where
  pub sha : Bytes
  pub no_op : Bool

abbrev pub wrapped : Bytes → Bytes → Bytes
wrapped prefix e = prefix ++ (utf8 ": " ++ e)

-- The environment with the temporary index.
abbrev pub index_env : Bytes → List Bytes
index_env path = (utf8 "GIT_INDEX_FILE=" ++ path) ∷ []

abbrev pub cached_args : List Bytes
cached_args = utf8 "ls-files" ∷ utf8 "--cached" ∷ []

abbrev pub rm_args : Bytes → List Bytes
rm_args path = utf8 "rm" ∷ utf8 "--cached" ∷ utf8 "--quiet" ∷ utf8 "--" ∷ path ∷ []

abbrev pub tree_args : List Bytes
tree_args = utf8 "write-tree" ∷ []

-- commit-tree with the parent, if there is one.
abbrev pub commit_args : Bytes → Bytes → Bytes → List Bytes
commit_args tree parent msg =
    if str_eq parent []
    then utf8 "commit-tree" ∷ tree ∷ utf8 "-m" ∷ msg ∷ []
    else utf8 "commit-tree" ∷ tree ∷ utf8 "-p" ∷ parent ∷ utf8 "-m" ∷ msg ∷ []

unfoldable pub is_tree : Bytes → Result Bytes → Bool
is_tree tree (ok head_tree) = str_eq head_tree tree
is_tree tree (err e) = false

module _ {G : Type 0} (r : Runner G) where
  -- An output whose error is dropped.
  unfoldable pub output : List Bytes → Exec G Bytes
  output args = do out ← try_exec (r.run [] args); pure (text_or [] out)

  module _ (env : List Bytes) (deny : Bytes → Bool) where
    -- One path of the temporary index.
    unfoldable pub exclude : Bytes → Exec G Unit
    exclude path =
        if deny path
        then (do
          map_err (wrapped (utf8 "exclude denied path " ++ r.quote path)) (r.run env (rm_args path))
          pure tt)
        else pure tt

    unfoldable pub exclude_all : List Bytes → Exec G Unit
    unfolding exclude
    exclude_all [] = pure tt
    exclude_all (path ∷ paths) = do exclude path; exclude_all paths

    -- The temporary index is filled, and the denied files leave it.
    unfoldable pub stage : Exec G Unit
    unfolding exclude_all
    stage = do
      map_err (wrapped (utf8 "stage into temp index")) (r.run env (utf8 "add" ∷ utf8 "-A" ∷ []))
      staged ← map_err (wrapped (utf8 "list temp index")) (r.run env cached_args)
      exclude_all (split_lines staged)

  -- The commit of a tree on HEAD.
  unfoldable pub commit_snapshot : Bytes → Bytes → Exec G SnapshotResult
  unfolding output
  commit_snapshot msg tree = do
    parent ← output (utf8 "rev-parse" ∷ utf8 "HEAD" ∷ [])
    snap ← map_err (wrapped (utf8 "commit-tree")) (r.run [] (commit_args tree parent msg))
    pure (record { sha = snap; no_op = false })

  -- No commit, if the tree is that of HEAD.
  unfoldable pub commit_unless : Bytes → Bytes → Result Bytes → Exec G SnapshotResult
  unfolding commit_snapshot is_tree
  commit_unless msg tree head =
      if is_tree tree head
      then pure (record { sha = []; no_op = true })
      else commit_snapshot msg tree

  unfoldable pub snapshot_tree : Bytes → Bytes → Exec G SnapshotResult
  unfolding commit_unless
  snapshot_tree msg tree = do
    head ← try_exec (r.run [] (utf8 "rev-parse" ∷ utf8 "HEAD^{tree}" ∷ []))
    commit_unless msg tree head

  -- `tmp` is the path of the index in the new temporary directory, or why it could not be made.
  unfoldable pub create_shadow_snapshot :
      Result Bytes → Bytes → (Bytes → Bool) → Exec G SnapshotResult
  unfolding stage snapshot_tree
  create_shadow_snapshot tmp msg deny = do
    path ← map_err (wrapped (utf8 "temp index dir")) (lift tmp)
    stage (index_env path) deny
    tree ← map_err (wrapped (utf8 "write-tree")) (r.run (index_env path) tree_args)
    snapshot_tree msg tree

  -- The remote whose present URL is `cur`.
  unfoldable pub point_remote : Bytes → Bytes → Bytes → Exec G Unit
  point_remote name url cur =
      if str_eq cur []
      then (do r.run [] (utf8 "remote" ∷ utf8 "add" ∷ name ∷ url ∷ []); pure tt)
      else if str_eq cur url
      then pure tt
      else (do r.run [] (utf8 "remote" ∷ utf8 "set-url" ∷ name ∷ url ∷ []); pure tt)

  unfoldable pub ensure_remote : Bytes → Bytes → Exec G Unit
  unfolding output point_remote
  ensure_remote name url =
      if str_eq url []
      then raise (utf8 "empty remote url for " ++ r.quote name)
      else (do cur ← output (utf8 "remote" ∷ utf8 "get-url" ∷ name ∷ []); point_remote name url cur)

  abbrev pub ssh_env : List Bytes
  ssh_env =
      if str_eq r.ssh_key []
      then []
      else (utf8 "GIT_SSH_COMMAND=ssh -i " ++ (r.quote r.ssh_key ++ utf8 " -o IdentitiesOnly=yes"))
        ∷ []

  unfoldable pub publish_shadow : Bytes → Bytes → Bytes → Exec G Unit
  publish_shadow remote_name shadow_ref sha = do
    map_err (wrapped (utf8 "update-ref " ++ shadow_ref))
        (r.run [] (utf8 "update-ref" ∷ shadow_ref ∷ sha ∷ []))
    map_err (wrapped (utf8 "push shadow ref")) (
        r.run ssh_env (
          utf8 "push"
          ∷ utf8 "--force"
          ∷ remote_name
          ∷ (shadow_ref ++ (utf8 ":" ++ shadow_ref))
          ∷ []))
    pure tt

  unfoldable pub list_shadow_refs : Bytes → Exec G (List Bytes)
  unfolding split_lines
  list_shadow_refs namespace = do
    out ← r.run [] (utf8 "for-each-ref" ∷ utf8 "--format=%(refname)" ∷ namespace ∷ [])
    pure (split_lines out)

  unfoldable pub delete_shadow_ref : Bytes → Bytes → Exec G Unit
  delete_shadow_ref remote_name ref = do
    try_exec (r.run [] (utf8 "update-ref" ∷ utf8 "-d" ∷ ref ∷ []))
    r.run ssh_env (utf8 "push" ∷ remote_name ∷ (utf8 ":" ++ ref) ∷ [])
    pure tt

  -- LocalBranches: none, if git fails.
  unfoldable pub local_branches : Exec G (List Bytes)
  unfolding output split_lines
  local_branches = do
    out ← output (utf8 "for-each-ref" ∷ utf8 "--format=%(refname:short)" ∷ utf8 "refs/heads" ∷ [])
    pure (split_lines out)
