-- ===== src/Change/Snapshot.antt =====
-- Build of krennic/internal/change/builder.go over CreateShadowSnapshot of
-- krennic/internal/gitxport/shadow.go.
use director_orson_callan_kr.Base.{
  Bytes, ◌≡◌, ◌⊎◌, inl, inr, Bool, false, Option, none, some, List, [], ◌∷◌, ◌++◌, All, Bool-cases,
  Result, ok, err, Outcome, utf8,
}
use director_orson_callan_kr.Model.{Hunk, ChangeEvent}
use director_orson_callan_kr.Git.Tree.{Repository, DiffResult, working_tree_diff}
use director_orson_callan_kr.Git.Shadow.{Runner, SnapshotResult, index_env, create_shadow_snapshot}
use director_orson_callan_kr.Git.Index.{IsIndex, is_secret}
use director_orson_callan_kr.Git.Excluded.{IsExcluded, create_shadow_snapshot-IsExcluded}
use director_orson_callan_kr.Change.Defs.{
  Builder, Surroundings, denies_path, mask, is_repo, snapshotted, build_hunks, build_diff, build,
  event_of,
}
use director_orson_callan_kr.Change.Content.{IsWithheldEvent, Built, build-Built}

-- The commit of an event, if there is one.
abbrev HasSha : (Bytes → Type 0) → Option ChangeEvent → Type 0
HasSha P none = Unit
HasSha P (some ev) = P ev.repo.shadow_sha

-- What Build says of the commit of its snapshot, if it is so for every commit that it may get.
module _ (s : Surroundings) (b : Builder) (repo : Repository) (P : Bytes → Type 0)
    (snapshots : (msg : Bytes) → Outcome (s.snapshot msg) (λ _. Unit {0}) P) where
  abbrev Shadowed : Result (Option ChangeEvent) → Type 0
  Shadowed r = Outcome r (λ _. Unit) (HasSha P)

  snapshotted-Shadowed :
      (diff : DiffResult) (r : Result Bytes)
      → Outcome r (λ _. Unit) P
      → Shadowed (snapshotted s b repo diff r)
  unfolding snapshotted event_of
  snapshotted-Shadowed diff (err e) h = tt
  snapshotted-Shadowed diff (ok sha) h = h

  build_hunks-Shadowed :
      (diff : DiffResult) (hs : List Hunk) → Shadowed (build_hunks s b repo diff hs)
  unfolding build_hunks
  build_hunks-Shadowed diff [] = tt
  build_hunks-Shadowed diff (h ∷ hs) =
      snapshotted-Shadowed diff _ (snapshots (utf8 "krennic wip " ++ s.format_rfc3339 s.now))

  build_diff-Shadowed : (r : Result DiffResult) → Shadowed (build_diff s b repo r)
  unfolding build_diff
  build_diff-Shadowed (err e) = tt
  build_diff-Shadowed (ok diff) = build_hunks-Shadowed diff diff.hunks

  build-Shadowed : Shadowed (build s b repo)
  unfolding build
  build-Shadowed = elim (Bool-cases (is_repo repo)) [
    | inr e ↦ rw e tt
    | inl e ↦ rw e (
        build_diff-Shadowed
          (working_tree_diff repo (denies_path s b repo) (mask s b repo) b.diff_options))
  ]

-- The hash of a snapshot.
unfoldable pub sha_of : Result SnapshotResult → Result Bytes
sha_of (ok snap) = ok snap.sha
sha_of (err e) = err e

module _ {G : Type 0} (r : Runner G) (path : Bytes) (g : G) (s : Surroundings) (b : Builder)
    (repo : Repository) where
  -- Build's surroundings with the snapshot made in the repository `g` over the temporary index at
  -- `path`.
  abbrev pub with_snapshot : Surroundings
  with_snapshot = record s {
    snapshot = λ msg. sha_of (create_shadow_snapshot r (ok path) msg (denies_path s b repo) g).0;
  }

  module _ (matches : Bytes → Bytes → Bool) (staged : G → List Bytes) (paths : Bytes → List Bytes)
      (git : IsIndex r (index_env path) matches staged paths) where
    -- No commit, or a commit of a tree without plain paths that are denied.
    abbrev IsClean : Bytes → Type 0
    IsClean sha = (sha ≡ []) ⊎ All (λ x. is_secret (denies_path s b repo) x ≡ false) (paths sha)

    -- No hunk of an event has a denied path, and its commit has no plain one.
    abbrev pub IsCleanEvent : Option ChangeEvent → Type 0
    IsCleanEvent none = Unit
    IsCleanEvent (some ev) =
        IsWithheldEvent (denies_path s b repo) (some ev) × IsClean ev.repo.shadow_sha

    sha_of-IsClean :
        (snap : Result SnapshotResult)
        → Outcome snap
            (λ _. Unit)
            (IsExcluded r (denies_path s b repo) matches staged paths path git)
        → Outcome (sha_of snap) (λ _. Unit) IsClean
    unfolding sha_of
    sha_of-IsClean (err e) h = tt
    sha_of-IsClean (ok snap) (inl (_, h)) = inl h
    sha_of-IsClean (ok snap) (inr h) = inr h

    both :
        (built : Result (Option ChangeEvent))
        → Built s b repo built
        → Outcome built (λ _. Unit) (HasSha IsClean)
        → Outcome built (λ _. Unit) IsCleanEvent
    both (err e) h k = tt
    both (ok none) h k = tt
    both (ok (some ev)) h k = (h, k)

    -- An event that Build returns has no hunk of a denied path, and it has no snapshot commit, or one
    -- in whose tree no plain path is denied, over what git documents of its index. A plain path has
    -- printable ASCII bytes only, none of them a blank, a quote, a backslash, a colon or a character
    -- of patterns. Of other paths in the tree, which git quotes or takes for patterns, nothing is
    -- said.
    pub build-IsClean : Outcome (build with_snapshot b repo) (λ _. Unit) IsCleanEvent
    build-IsClean =
        let here = with_snapshot in
        both (build here b repo) (build-Built here b repo) (
          build-Shadowed here b repo IsClean (λ msg.
            sha_of-IsClean (create_shadow_snapshot r (ok path) msg (denies_path s b repo) g).0 (
              create_shadow_snapshot-IsExcluded r (denies_path s b repo) matches staged paths path
                git msg g)))
