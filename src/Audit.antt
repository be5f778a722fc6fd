-- ===== src/Audit.antt =====
-- krennic/internal/audit/audit.go: the attributed report and the hash chain.
use director_orson_callan_kr.Base.{
  ℕ, Bytes, Bool, false, Option, none, some, List, [], ◌∷◌, ◌++◌, length, str_eq, str_lt, utf8,
  if◌then◌else◌,
}
use director_orson_callan_kr.Model.{
  Developer, Hunk, TriageResult, ReviewResult, Record, State, Time,
}

pub record Report : Type 0 where
  pub report_id : Bytes
  pub change_id : Bytes
  pub reported_at : Time
  pub developer : Developer
  pub repo : Bytes
  pub remote : Bytes
  pub branch : Bytes
  pub head_sha : Bytes
  pub shadow_ref : Bytes
  pub shadow_sha : Bytes
  pub files : List Bytes
  pub lines_added : ℕ
  pub lines_removed : ℕ
  pub languages : List Bytes
  pub redacted_paths : List Bytes
  pub relevance : Bytes
  pub categories : List Bytes
  pub escalated : Bool
  pub verdict : Bytes
  pub findings_count : ℕ
  pub review_summary : Bytes
  pub status : State

-- One key of the map `set`, kept in the order of `sort.Strings`.
insert_file : Bytes → List Bytes → List Bytes
insert_file f [] = f ∷ []
insert_file f (g ∷ fs) =
    if str_eq f g then g ∷ fs else if str_lt f g then f ∷ g ∷ fs else g ∷ insert_file f fs

-- The paths of the hunks, each once, sorted.
unfoldable pub unique_files : List Hunk → List Bytes
unfolding insert_file
unique_files [] = []
unique_files (h ∷ hs) = insert_file h.path (unique_files hs)

with_triage : Option TriageResult → Report → Report
with_triage none r = r
with_triage (some tr) r = record r {
  relevance = tr.relevance;
  categories = tr.categories;
  escalated = tr.escalate;
}

with_review : Option ReviewResult → Report → Report
with_review none r = r
with_review (some rv) r = record r {
  verdict = rv.verdict;
  findings_count = length rv.findings;
  review_summary = rv.summary;
}

unfoldable pub build_report : Record → Bytes → Time → Report
unfolding unique_files with_triage with_review
build_report rec report_id reported_at =
    let ev = rec.event in
    with_review rec.review (
      with_triage rec.triage (record {
        report_id = report_id;
        change_id = ev.change_id;
        reported_at = reported_at;
        developer = ev.developer;
        repo = ev.repo.name;
        remote = ev.repo.remote;
        branch = ev.repo.branch;
        head_sha = ev.repo.head_sha;
        shadow_ref = ev.repo.shadow_ref;
        shadow_sha = ev.repo.shadow_sha;
        files = unique_files ev.diff.hunks;
        lines_added = ev.summary.lines_added;
        lines_removed = ev.summary.lines_removed;
        languages = ev.summary.languages;
        redacted_paths = ev.summary.redacted_paths;
        relevance = [];
        categories = [];
        escalated = false;
        verdict = [];
        findings_count = 0;
        review_summary = [];
        status = rec.status;
      }))

abbrev pub genesis_hash : Bytes
genesis_hash = utf8 "genesis"

-- What ChainHash writes to the hash.
abbrev pub chain_input : Bytes → Bytes → Bytes
chain_input prev_hash payload = prev_hash ++ 0 ∷ payload

-- `digest` is SHA-256 followed by hexadecimal encoding.
unfoldable pub chain_hash : (Bytes → Bytes) → Bytes → Bytes → Bytes
chain_hash digest prev_hash payload = digest (chain_input prev_hash payload)
