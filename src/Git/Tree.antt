-- ===== src/Git/Tree.antt =====
-- krennic/internal/gitxport/diff.go: WorkingTreeDiff. What git prints and what the files hold is
-- given by the repository. The code collects the changed files and the languages in maps, whose order
-- is arbitrary; here they stand in the order in which they were met.
use director_orson_callan_kr.Base.{
  ℕ, ◌+◌, Bytes, Bool, true, false, ◌&&◌, ◌||◌, Option, none, some, List, [], ◌∷◌, ◌++◌, ltb, any,
  if◌then◌else◌, utf8, take, length, trim_space, split, str_eq, Result, ok, err,
}
use director_orson_callan_kr.Model.{Hunk}
use director_orson_callan_kr.Ai.Prompts.{decimal}
use director_orson_callan_kr.Git.Diff.{
  HunkBlock, FileDiff, split_file_diffs, mask_patch, is_binary, language_of,
}

pub record DiffOptions : Type 0 where
  pub context_lines : ℕ
  pub inter_hunk_context : ℕ
  pub function_context : Bool
  pub max_untracked_lines : ℕ

abbrev pub default_diff_options : DiffOptions
default_diff_options = record {
  context_lines = 3;
  inter_hunk_context = 1;
  function_context = true;
  max_untracked_lines = 400;
}

pub record DiffResult : Type 0 where
  pub hunks : List Hunk
  pub changed_files : List Bytes
  pub languages : List Bytes
  pub lines_added : ℕ
  pub lines_removed : ℕ
  pub truncated : Bool

abbrev pub no_diff : DiffResult
no_diff = record {
  hunks = [];
  changed_files = [];
  languages = [];
  lines_added = 0;
  lines_removed = 0;
  truncated = false;
}

-- A repository: the trimmed output of `git -C <root> <args>`, and what a file holds, if it can be
-- read and is no directory.
pub record Repository : Type 0 where
  pub run : List Bytes → Result Bytes
  pub read_file : Bytes → Option Bytes

-- splitLines of shadow.go
unfoldable pub split_lines : Bytes → List Bytes
unfolding trim_space split str_eq
split_lines s = let t = trim_space s in if str_eq t [] then [] else split b'\n' t

-- Insertion into a Go map that is used as a set.
unfoldable pub insert : Bytes → List Bytes → List Bytes
insert x xs = if any (str_eq x) xs then xs else xs ++ x ∷ []

abbrev pub insert_known : Bytes → List Bytes → List Bytes
insert_known x xs = if str_eq x [] then xs else insert x xs

unfoldable pub text_or : Bytes → Result Bytes → Bytes
text_or default (ok s) = s
text_or default (err e) = default

module _ (repo : Repository) (deny : Bytes → Bool) (mask : Bytes → Bytes) where
  unfoldable pub head_sha : Bytes
  unfolding text_or
  head_sha = text_or [] (repo.run (utf8 "rev-parse" ∷ utf8 "HEAD" ∷ []))

  unfoldable pub empty_tree : Bytes
  unfolding text_or
  empty_tree =
      text_or (utf8 "4b825dc642cb6eb9a060e54bf8d69288fbee4904")
        (repo.run (utf8 "hash-object" ∷ utf8 "-t" ∷ utf8 "tree" ∷ utf8 "/dev/null" ∷ []))

  unfoldable pub diff_args : DiffOptions → Bytes → List Bytes
  unfolding decimal
  diff_args opts tree =
      utf8 "diff"
      ∷ utf8 "--no-color"
      ∷ (utf8 "-U" ++ decimal opts.context_lines)
      ∷ (utf8 "--inter-hunk-context=" ++ decimal opts.inter_hunk_context)
      ∷ ((if opts.function_context then utf8 "--function-context" ∷ [] else []) ++ tree ∷ [])

  -- The diff against the empty tree, if there is no commit yet.
  unborn_diff : DiffOptions → Result Bytes → Result Bytes
  unfolding head_sha empty_tree diff_args
  unborn_diff opts (ok raw) = ok raw
  unborn_diff opts (err e) =
      if str_eq head_sha [] then repo.run (diff_args opts empty_tree) else err e

  unfoldable pub raw_diff : DiffOptions → Result Bytes
  unfolding unborn_diff diff_args
  raw_diff opts = unborn_diff opts (repo.run (diff_args opts (utf8 "HEAD")))

  unfoldable pub add_hunks : Bytes → Bytes → List HunkBlock → DiffResult → DiffResult
  unfolding language_of mask_patch
  add_hunks path change_type [] res = res
  add_hunks path change_type (h ∷ hs) res = add_hunks path change_type hs (record res {
    hunks =
        res.hunks
        ++ record {
          path = path;
          language = language_of path;
          change_type = change_type;
          function_context = h.func_ctx;
          patch = mask_patch h.body mask;
        }
          ∷ [];
    lines_added = res.lines_added + h.added;
    lines_removed = res.lines_removed + h.removed;
  })

  abbrev pub mark_file : Bytes → DiffResult → DiffResult
  mark_file path res = record res {
    changed_files = insert path res.changed_files;
    languages = insert_known (language_of path) res.languages;
  }

  -- One file of the loop over the parsed files.
  unfoldable pub add_file_diff : FileDiff → DiffResult → DiffResult
  unfolding add_hunks insert
  add_file_diff fd res =
      if str_eq fd.path [] || deny fd.path
      then res
      else mark_file fd.path (add_hunks fd.path fd.change_type fd.hunks res)

  unfoldable pub add_file_diffs : List FileDiff → DiffResult → DiffResult
  unfolding add_file_diff
  add_file_diffs [] res = res
  add_file_diffs (fd ∷ fds) res = add_file_diffs fds (add_file_diff fd res)

  added_lines : List Bytes → Bytes
  added_lines [] = []
  added_lines (ln ∷ lns) = (b'+' ∷ (mask ln ++ b'\n' ∷ [])) ++ added_lines lns

  abbrev pub is_over : DiffOptions → List Bytes → Bool
  is_over opts lines = ltb 0 opts.max_untracked_lines && ltb opts.max_untracked_lines (length lines)

  -- The lines that are kept of an untracked file.
  abbrev pub kept_lines : DiffOptions → List Bytes → List Bytes
  kept_lines opts lines = if is_over opts lines then take opts.max_untracked_lines lines else lines

  unfoldable pub untracked_patch : List Bytes → Bytes
  unfolding decimal added_lines
  untracked_patch lines =
      utf8 "@@ -0,0 +1,"
      ++ (decimal (length lines) ++ (utf8 " @@ (new file)\n" ++ added_lines lines))

  -- An untracked file that can be read and is no binary.
  unfoldable pub add_untracked_lines : DiffOptions → Bytes → List Bytes → DiffResult → DiffResult
  unfolding untracked_patch language_of insert
  add_untracked_lines opts path lines res = mark_file path (record res {
    hunks =
        res.hunks
        ++ record {
          path = path;
          language = language_of path;
          change_type = utf8 "added";
          function_context = [];
          patch = untracked_patch (kept_lines opts lines);
        }
          ∷ [];
    lines_added = res.lines_added + length (kept_lines opts lines);
    truncated = res.truncated || is_over opts lines;
  })

  unfoldable pub add_content : DiffOptions → Bytes → Option Bytes → DiffResult → DiffResult
  unfolding add_untracked_lines is_binary split
  add_content opts path none res = res
  add_content opts path (some content) res =
      if is_binary content then res else add_untracked_lines opts path (split b'\n' content) res

  -- One file of the loop over the untracked files.
  unfoldable pub add_untracked_file : DiffOptions → Bytes → DiffResult → DiffResult
  unfolding add_content
  add_untracked_file opts path res =
      if deny path then res else add_content opts path (repo.read_file path) res

  unfoldable pub add_untracked : DiffOptions → List Bytes → DiffResult → DiffResult
  unfolding add_untracked_file
  add_untracked opts [] res = res
  add_untracked opts (path ∷ paths) res =
      add_untracked opts paths (add_untracked_file opts path res)

  unfoldable pub add_others : DiffOptions → Result Bytes → DiffResult → DiffResult
  unfolding add_untracked split_lines
  add_others opts (err e) res = res
  add_others opts (ok others) res = add_untracked opts (split_lines others) res

  abbrev pub untracked_paths : Result Bytes
  untracked_paths = repo.run (utf8 "ls-files" ∷ utf8 "--others" ∷ utf8 "--exclude-standard" ∷ [])

  unfoldable pub diff_of : DiffOptions → Result Bytes → Result DiffResult
  unfolding add_file_diffs add_others split_file_diffs
  diff_of opts (err e) = err e
  diff_of opts (ok raw) =
      ok (add_others opts untracked_paths (add_file_diffs (split_file_diffs raw) no_diff))

  unfoldable pub working_tree_diff : DiffOptions → Result DiffResult
  unfolding raw_diff diff_of
  working_tree_diff opts = diff_of opts (raw_diff opts)
