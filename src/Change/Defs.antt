-- ===== src/Change/Defs.antt =====
-- krennic/internal/change/builder.go: Build, with the queries of krennic/internal/gitxport/git.go
-- that it makes. Git answers a query the same throughout one Build. The snapshot commit is given by
-- a function from its message to its hash; it leaves the working tree and the index alone.
use director_orson_callan_kr.Base.{
  Bytes, Bool, false, ◌&&◌, Option, none, some, List, [], ◌∷◌, ◌++◌, if◌then◌else◌, length, str_eq,
  str_lt, utf8, Result, ok, err,
}
use director_orson_callan_kr.Model.{Time, Developer, Hunk, ChangeEvent, schema_version}
use director_orson_callan_kr.Redact.{Regexp, Redactor, is_denied, mask_line}
use director_orson_callan_kr.Git.Refs.{shadow_ref_name, changed_paths}
use director_orson_callan_kr.Git.Tree.{
  Repository, DiffOptions, DiffResult, text_or, head_sha, working_tree_diff,
}

-- What contentHash writes to the hash.
unfoldable pub hash_input : List Hunk → Bytes
hash_input [] = []
hash_input (h ∷ hs) = h.path ++ 0 ∷ (h.patch ++ 0 ∷ hash_input hs)

-- `digest` is SHA-256 followed by hexadecimal encoding.
unfoldable pub content_hash : (Bytes → Bytes) → List Hunk → Bytes
unfolding hash_input
content_hash digest hunks = digest (hash_input hunks)

pub record Builder : Type 0 where
  pub developer : Developer
  pub redactor : Redactor
  pub namespace : Bytes
  pub diff_options : DiffOptions

-- What a Build gets from outside: the base name of the root, the clock, two fresh UUIDs, and the
-- commit that CreateShadowSnapshot makes for a message.
pub record Surroundings : Type 0 where
  pub regexp : Regexp
  pub digest : Bytes → Bytes
  pub root : Bytes
  pub repo_name : Bytes
  pub now : Time
  pub format_rfc3339 : Time → Bytes
  pub change_id : Bytes
  pub trace_id : Bytes
  pub snapshot : Bytes → Result Bytes

-- sort.Strings
insert_string : Bytes → List Bytes → List Bytes
insert_string x [] = x ∷ []
insert_string x (y ∷ ys) = if str_lt y x then y ∷ insert_string x ys else x ∷ y ∷ ys

unfoldable pub sort_strings : List Bytes → List Bytes
unfolding insert_string
sort_strings [] = []
sort_strings (x ∷ xs) = insert_string x (sort_strings xs)

unfoldable pub select_denied : (Bytes → Bool) → List Bytes → List Bytes
select_denied deny [] = []
select_denied deny (p ∷ ps) = let rest = select_denied deny ps in if deny p then p ∷ rest else rest

-- The identity that git knows replaces the configured one.
unfoldable pub attributed : Bytes → Bytes → Developer → Developer
attributed name email dev =
    if str_eq name [] && str_eq email []
    then dev
    else if str_eq name []
    then record dev { git_email = email }
    else record dev { git_name = name; git_email = email }

module _ (repo : Repository) where
  unfoldable pub is_repo : Bool
  is_repo = elim (repo.run (utf8 "rev-parse" ∷ utf8 "--is-inside-work-tree" ∷ [])) [
    | ok out ↦ str_eq out (utf8 "true")
    | err e ↦ false
  ]

  unfoldable pub current_branch : Bytes
  current_branch =
      elim (repo.run (utf8 "symbolic-ref" ∷ utf8 "--quiet" ∷ utf8 "--short" ∷ utf8 "HEAD" ∷ [])) [
        | ok out ↦ if str_eq out [] then utf8 "detached" else out
        | err e ↦ utf8 "detached"
      ]

  unfoldable pub remote_url : Bytes → Bytes
  remote_url remote = text_or [] (repo.run (utf8 "remote" ∷ utf8 "get-url" ∷ remote ∷ []))

  unfoldable pub git_identity : Bytes × Bytes
  git_identity = (
    text_or [] (repo.run (utf8 "config" ∷ utf8 "user.name" ∷ [])),
    text_or [] (repo.run (utf8 "config" ∷ utf8 "user.email" ∷ [])),
  )

module _ (s : Surroundings) (b : Builder) (repo : Repository) where
  abbrev pub denies_path : Bytes → Bool
  denies_path = is_denied s.regexp b.redactor

  abbrev pub mask : Bytes → Bytes
  mask line = (mask_line s.regexp b.redactor line).0

  unfoldable pub redacted_paths : List Bytes
  unfolding select_denied sort_strings changed_paths
  redacted_paths = sort_strings (select_denied denies_path (changed_paths repo))

  unfoldable pub event_of : DiffResult → Bytes → ChangeEvent
  unfolding attributed git_identity current_branch remote_url redacted_paths content_hash
      sort_strings
  event_of diff sha =
      let (name, email) = git_identity repo in
      record {
        schema_version = schema_version;
        change_id = s.change_id;
        trace_id = s.trace_id;
        created_at = s.now;
        developer = attributed name email b.developer;
        repo = record {
          name = s.repo_name;
          root_hint = s.repo_name;
          remote = remote_url repo (utf8 "origin");
          branch = current_branch repo;
          head_sha = head_sha repo denies_path mask;
          shadow_ref =
              shadow_ref_name b.namespace b.developer.user_slug s.repo_name (current_branch repo);
          shadow_sha = sha;
          local_path = s.root;
        };
        summary = record {
          files_changed = length diff.changed_files;
          lines_added = diff.lines_added;
          lines_removed = diff.lines_removed;
          languages = sort_strings diff.languages;
          redacted_paths = redacted_paths;
          truncated = diff.truncated;
        };
        diff = record {
          format = utf8 "unified";
          context_lines = b.diff_options.context_lines;
          hunks = diff.hunks;
        };
        routing_hints = record { force_stage = []; budget_tier = utf8 "normal" };
        content_hash = content_hash s.digest diff.hunks;
      }

  unfoldable pub snapshotted : DiffResult → Result Bytes → Result (Option ChangeEvent)
  unfolding event_of
  snapshotted diff (err e) = err (utf8 "snapshot: " ++ e)
  snapshotted diff (ok sha) = ok (some (event_of diff sha))

  -- Build behind the diff: nothing, if there is no hunk.
  unfoldable pub build_hunks : DiffResult → List Hunk → Result (Option ChangeEvent)
  unfolding snapshotted
  build_hunks diff [] = ok none
  build_hunks diff (h ∷ hs) =
      snapshotted diff (s.snapshot (utf8 "krennic wip " ++ s.format_rfc3339 s.now))

  unfoldable pub build_diff : Result DiffResult → Result (Option ChangeEvent)
  unfolding build_hunks
  build_diff (err e) = err (utf8 "diff: " ++ e)
  build_diff (ok diff) = build_hunks diff diff.hunks

  unfoldable pub build : Result (Option ChangeEvent)
  unfolding is_repo build_diff
  build =
      if is_repo repo
      then build_diff (working_tree_diff repo denies_path mask b.diff_options)
      else err (s.root ++ utf8 " is not a git repo")
