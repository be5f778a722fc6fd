-- ===== src/Git/Diff.antt =====
-- krennic/internal/gitxport/diff.go: the parser of unified diffs and the masking of patches.
use director_orson_callan_kr.Base.{
  ℕ, ◌+◌, Bytes, Bool, ◌&&◌, ◌||◌, not, Option, none, some, List, [], ◌∷◌, ◌++◌, map, ◌==◌, any,
  if◌then◌else◌, utf8, index, last_index, drop, take, has_prefix, trim_prefix, trim_space, split,
  join, str_eq, to_lower,
}

pub record HunkBlock : Type 0 where
  pub func_ctx : Bytes
  pub body : Bytes
  pub added : ℕ
  pub removed : ℕ

pub record FileDiff : Type 0 where
  pub path : Bytes
  pub change_type : Bytes
  pub hunks : List HunkBlock

-- The local variables of splitFileDiffs.
pub record Scan : Type 0 where
  pub files : List FileDiff
  pub cur : Option FileDiff
  pub hb : Option HunkBlock

unfoldable pub parse_git_diff_path : Bytes → Bytes
unfolding index trim_prefix
parse_git_diff_path line =
    let rest = trim_prefix line (utf8 "diff --git ") in
    elim (index rest (utf8 " b/")) [
      | some i ↦ drop (i + 3) rest
      | none ↦ trim_prefix rest (utf8 "a/")
    ]

-- The text behind the second `@@`.
after_at : Bytes → Bytes
unfolding index trim_space
after_at rest = elim (index rest (utf8 "@@")) [
  | some j ↦ trim_space (drop (j + 2) rest)
  | none ↦ []
]

unfoldable pub parse_hunk_func : Bytes → Bytes
unfolding index after_at
parse_hunk_func line = elim (index line (utf8 "@@")) [
  | none ↦ []
  | some idx ↦ after_at (drop (idx + 2) line)
]

unfoldable pub flush_hunk : Scan → Scan
flush_hunk s = elim s.cur [
  | none ↦ s
  | some f ↦ elim s.hb [
    | none ↦ s
    | some h ↦ record s { cur = some (record f { hunks = f.hunks ++ h ∷ [] }); hb = none }
  ]
]

unfoldable pub flush_file : Scan → Scan
unfolding flush_hunk
flush_file s =
    let t = flush_hunk s in
    elim t.cur [ none ↦ t | some f ↦ record t { files = t.files ++ f ∷ []; cur = none } ]

-- A line of the open hunk.
unfoldable pub add_line : Bytes → HunkBlock → HunkBlock
unfolding has_prefix
add_line ln h =
    let body = h.body ++ (ln ++ b'\n' ∷ []) in
    if has_prefix ln (utf8 "+")
    then record h { body = body; added = h.added + 1 }
    else if has_prefix ln (utf8 "-")
    then record h { body = body; removed = h.removed + 1 }
    else record h { body = body }

-- The path that a `+++ ` line gives.
unfoldable pub new_path : Bytes → Bytes → Bytes
unfolding trim_prefix str_eq
new_path ln old =
    let p = trim_prefix ln (utf8 "+++ b/") in
    if not (str_eq p [])
      && (not (str_eq p (utf8 "/dev/null")) && not (str_eq ln (utf8 "+++ /dev/null")))
    then p
    else old

-- A line behind the first `diff --git`.
unfoldable pub scan_file_line : Bytes → FileDiff → Scan → Scan
unfolding has_prefix flush_hunk parse_hunk_func add_line new_path
scan_file_line ln f s =
    if has_prefix ln (utf8 "new file")
    then record s { cur = some (record f { change_type = utf8 "added" }) }
    else if has_prefix ln (utf8 "deleted file")
    then record s { cur = some (record f { change_type = utf8 "deleted" }) }
    else if has_prefix ln (utf8 "rename ")
    then record s { cur = some (record f { change_type = utf8 "renamed" }) }
    else if has_prefix ln (utf8 "+++ ")
    then record s { cur = some (record f { path = new_path ln f.path }) }
    else if has_prefix ln (utf8 "--- ")
    then s
    else if has_prefix ln (utf8 "index ")
    then s
    else if has_prefix ln (utf8 "@@")
    then record (flush_hunk s) {
      hb = some (record {
        func_ctx = parse_hunk_func ln;
        body = ln ++ b'\n' ∷ [];
        added = 0;
        removed = 0;
      });
    }
    else elim s.hb [ none ↦ s | some h ↦ record s { hb = some (add_line ln h) } ]

unfoldable pub scan_line : Bytes → Scan → Scan
unfolding has_prefix flush_file parse_git_diff_path scan_file_line
scan_line ln s =
    if has_prefix ln (utf8 "diff --git ")
    then record (flush_file s) {
      cur =
          some
            (record { path = parse_git_diff_path ln; change_type = utf8 "modified"; hunks = [] });
    }
    else elim s.cur [ none ↦ s | some f ↦ scan_file_line ln f s ]

unfoldable pub scan_lines : List Bytes → Scan → Scan
unfolding scan_line
scan_lines [] s = s
scan_lines (ln ∷ lns) s = scan_lines lns (scan_line ln s)

abbrev pub start : Scan
start = record { files = []; cur = none; hb = none }

unfoldable pub split_file_diffs : Bytes → List FileDiff
unfolding trim_space split scan_lines flush_file str_eq
split_file_diffs raw =
    if str_eq (trim_space raw) []
    then []
    else (flush_file (scan_lines (split b'\n' raw) start)).files

-- A line of a patch: what stands behind the sign is masked.
unfoldable pub mask_patch_line : (Bytes → Bytes) → Bytes → Bytes
mask_patch_line mask [] = []
mask_patch_line mask (c ∷ ln) =
    if c == b'+' || (c == b'-' || c == b' ') then c ∷ mask ln else c ∷ ln

unfoldable pub mask_patch : Bytes → (Bytes → Bytes) → Bytes
unfolding split join mask_patch_line
mask_patch patch mask = join (map (mask_patch_line mask) (split b'\n' patch)) (utf8 "\n")

unfoldable pub is_binary : Bytes → Bool
is_binary content = any (λ c. c == 0) (take 8000 content)

-- filepath.Ext: the text from the last dot of the last element.
unfoldable pub ext : Bytes → Bytes
unfolding last_index
ext path = elim (last_index b'.' path) [
  | none ↦ []
  | some i ↦ elim (last_index b'/' (drop i path)) [ none ↦ drop i path | some j ↦ [] ]
]

-- The cases of the switch in languageOf.
abbrev pub languages : List (Bytes × Bytes)
languages =
    (utf8 ".go", utf8 "go")
    ∷ (utf8 ".py", utf8 "python")
    ∷ (utf8 ".js", utf8 "javascript")
    ∷ (utf8 ".mjs", utf8 "javascript")
    ∷ (utf8 ".cjs", utf8 "javascript")
    ∷ (utf8 ".ts", utf8 "typescript")
    ∷ (utf8 ".tsx", utf8 "typescript")
    ∷ (utf8 ".java", utf8 "java")
    ∷ (utf8 ".rb", utf8 "ruby")
    ∷ (utf8 ".rs", utf8 "rust")
    ∷ (utf8 ".c", utf8 "c")
    ∷ (utf8 ".h", utf8 "c")
    ∷ (utf8 ".cpp", utf8 "cpp")
    ∷ (utf8 ".cc", utf8 "cpp")
    ∷ (utf8 ".hpp", utf8 "cpp")
    ∷ (utf8 ".cs", utf8 "csharp")
    ∷ (utf8 ".php", utf8 "php")
    ∷ (utf8 ".sql", utf8 "sql")
    ∷ (utf8 ".sh", utf8 "shell")
    ∷ (utf8 ".bash", utf8 "shell")
    ∷ (utf8 ".yaml", utf8 "yaml")
    ∷ (utf8 ".yml", utf8 "yaml")
    ∷ (utf8 ".json", utf8 "json")
    ∷ (utf8 ".md", utf8 "markdown")
    ∷ []

-- The value for a key in a list of cases, or the empty text.
lookup_text : Bytes → List (Bytes × Bytes) → Bytes
unfolding str_eq
lookup_text key [] = []
lookup_text key ((k, v) ∷ t) = if str_eq k key then v else lookup_text key t

unfoldable pub language_of : Bytes → Bytes
unfolding ext to_lower lookup_text
language_of path = lookup_text (to_lower (ext path)) languages
