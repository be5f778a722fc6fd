-- ===== src/Git/Withheld.antt =====
-- What WorkingTreeDiff never passes on.
use director_orson_callan_kr.Base.{
  Bytes, ◌≡◌, refl, Bool, false, ◌||◌, Option, none, some, List, [], ◌∷◌, ◌++◌, arith, any, All,
  str_eq, Result, ok, err, Bool-cases, inl, inr, Outcome,
}
use director_orson_callan_kr.Model.{Hunk}
use director_orson_callan_kr.Git.Diff.{HunkBlock, FileDiff, split_file_diffs, is_binary}
use director_orson_callan_kr.Git.Tree.{
  DiffOptions, DiffResult, no_diff, Repository, split_lines, insert, mark_file, add_hunks,
  add_file_diffs, add_file_diff, add_untracked_file, add_untracked_lines, add_content,
  add_untracked, add_others, raw_diff, untracked_paths, diff_of, working_tree_diff,
}

All-snoc {ℓ κ} :
    {A : Type ℓ} (P : A → Type κ) (xs : List A) (x : A) → All P xs → P x → All P (xs ++ x ∷ [])
All-snoc P [] x h p = (p, tt)
All-snoc P (y ∷ xs) x h p = (h.0, All-snoc P xs x h.1 p)

insert-All :
    (P : Bytes → Type 0) (x : Bytes) (xs : List Bytes) → All P xs → P x → All P (insert x xs)
unfolding insert
insert-All P x xs h p = elim (Bool-cases (any (str_eq x) xs)) [
  | inl e ↦ rw e h
  | inr e ↦ rw e (All-snoc P xs x h p)
]

-- No hunk and no file of the result has a denied path.
pub record IsWithheld (deny : Bytes → Bool) (res : DiffResult) : Type 0 where
  pub hunks : All (λ (h : Hunk). deny h.path ≡ false) res.hunks
  pub files : All (λ (p : Bytes). deny p ≡ false) res.changed_files

not_denied : (empty denied : Bool) → (empty || denied) ≡ false → denied ≡ false
not_denied empty denied h = ground arith

module _ (repo : Repository) (deny : Bytes → Bool) (mask : Bytes → Bytes) where
  add_hunks-IsWithheld :
      (path ct : Bytes) (hs : List HunkBlock) (res : DiffResult)
      → deny path ≡ false
      → IsWithheld deny res
      → IsWithheld deny (add_hunks repo deny mask path ct hs res)
  unfolding add_hunks
  add_hunks-IsWithheld path ct [] res d w = w
  add_hunks-IsWithheld path ct (h ∷ hs) res d w =
      add_hunks-IsWithheld path ct hs _ d
        (record { hunks = All-snoc _ res.hunks _ w.hunks d; files = w.files })

  mark_file-IsWithheld :
      (path : Bytes) (res : DiffResult)
      → deny path ≡ false
      → IsWithheld deny res
      → IsWithheld deny (mark_file repo deny mask path res)
  mark_file-IsWithheld path res d w = record {
    hunks = w.hunks;
    files = insert-All _ path res.changed_files w.files d;
  }

  add_file_diff-IsWithheld :
      (fd : FileDiff) (res : DiffResult)
      → IsWithheld deny res
      → IsWithheld deny (add_file_diff repo deny mask fd res)
  unfolding add_file_diff
  add_file_diff-IsWithheld fd res w = elim (Bool-cases (str_eq fd.path [] || deny fd.path)) [
    | inl e ↦ rw e w
    | inr e ↦ rw e (
        let d = not_denied (str_eq fd.path []) (deny fd.path) e in
        mark_file-IsWithheld fd.path _ d
          (add_hunks-IsWithheld fd.path fd.change_type fd.hunks res d w))
  ]

  add_file_diffs-IsWithheld :
      (fds : List FileDiff) (res : DiffResult)
      → IsWithheld deny res
      → IsWithheld deny (add_file_diffs repo deny mask fds res)
  unfolding add_file_diffs
  add_file_diffs-IsWithheld [] res w = w
  add_file_diffs-IsWithheld (fd ∷ fds) res w =
      add_file_diffs-IsWithheld fds _ (add_file_diff-IsWithheld fd res w)

  add_content-IsWithheld :
      (opts : DiffOptions) (path : Bytes) (o : Option Bytes) (res : DiffResult)
      → deny path ≡ false
      → IsWithheld deny res
      → IsWithheld deny (add_content repo deny mask opts path o res)
  unfolding add_content add_untracked_lines
  add_content-IsWithheld opts path none res d w = w
  add_content-IsWithheld opts path (some content) res d w = elim (Bool-cases (is_binary content)) [
    | inl e ↦ rw e w
    | inr e ↦ rw e (
        mark_file-IsWithheld path _ d
          (record { hunks = All-snoc _ res.hunks _ w.hunks d; files = w.files }))
  ]

  add_untracked_file-IsWithheld :
      (opts : DiffOptions) (path : Bytes) (res : DiffResult)
      → IsWithheld deny res
      → IsWithheld deny (add_untracked_file repo deny mask opts path res)
  unfolding add_untracked_file
  add_untracked_file-IsWithheld opts path res w = elim (Bool-cases (deny path)) [
    | inl e ↦ rw e w
    | inr e ↦ rw e (add_content-IsWithheld opts path (repo.read_file path) res e w)
  ]

  add_untracked-IsWithheld :
      (opts : DiffOptions) (paths : List Bytes) (res : DiffResult)
      → IsWithheld deny res
      → IsWithheld deny (add_untracked repo deny mask opts paths res)
  unfolding add_untracked
  add_untracked-IsWithheld opts [] res w = w
  add_untracked-IsWithheld opts (path ∷ paths) res w =
      add_untracked-IsWithheld opts paths _ (add_untracked_file-IsWithheld opts path res w)

  add_others-IsWithheld :
      (opts : DiffOptions) (r : Result Bytes) (res : DiffResult)
      → IsWithheld deny res
      → IsWithheld deny (add_others repo deny mask opts r res)
  unfolding add_others
  add_others-IsWithheld opts (err e) res w = w
  add_others-IsWithheld opts (ok others) res w =
      add_untracked-IsWithheld opts (split_lines others) res w

  diff_of-IsWithheld :
      (opts : DiffOptions) (r : Result Bytes)
      → Outcome (diff_of repo deny mask opts r) (λ e. r ≡ err e) (IsWithheld deny)
  unfolding diff_of
  diff_of-IsWithheld opts (err e) = refl
  diff_of-IsWithheld opts (ok raw) =
      add_others-IsWithheld opts (untracked_paths repo deny mask)
        (add_file_diffs repo deny mask (split_file_diffs raw) no_diff)
        (add_file_diffs-IsWithheld (split_file_diffs raw) no_diff
          (record { hunks = tt; files = tt }))

  -- WorkingTreeDiff withholds what is denied: whatever git prints, it returns the error of `git
  -- diff`, or a result in which no hunk and no changed file has a denied path.
  pub working_tree_diff-IsWithheld :
      (opts : DiffOptions)
      → Outcome
          (working_tree_diff repo deny mask opts)
          (λ e. raw_diff repo deny mask opts ≡ err e)
          (IsWithheld deny)
  unfolding working_tree_diff
  working_tree_diff-IsWithheld opts = diff_of-IsWithheld opts (raw_diff repo deny mask opts)
