-- ===== src/Hub/Examples.antt =====
-- Tests of the audit log, and its theorems at concrete inputs.
use director_orson_callan_kr.Base.{
  ℕ, zero, suc, ap, Bytes, ◌≡◌, ◌≢◌, refl, ◌⊎◌, true, false, none, some, [], ◌∷◌, ◌++◌, ◌+◌, map,
  ok, arith, utf8, str_eq, length, Lacks, Ends,
}
use director_orson_callan_kr.Model.{Developer, done}
use director_orson_callan_kr.Audit.{Report, genesis_hash, chain_hash}
use director_orson_callan_kr.Sql.{Conn, exec, transaction}
use director_orson_callan_kr.Hub.Log.{
  AuditRow, HubDb, HubLibrary, empty_hub, append, verify, verify_rows, find_report, last_hash,
  row_for,
}
use director_orson_callan_kr.Hub.Chain.{IsChained, sound}
use director_orson_callan_kr.Sql.Laws.{IsFault}
use director_orson_callan_kr.Hub.Recorded.{IsRecorded, append_records}
use director_orson_callan_kr.Hub.Append.{
  FindsReport, ReadsLast, IsTxFault, append-IsChained, append_again,
}
use director_orson_callan_kr.Hub.Tamper.{IsHexDigest, Collision, tamper_evident}
use director_orson_callan_kr.Hub.Limits.{verify-truncated, append_breaks_chain}

abbrev alice : Developer
alice = record {
  user_slug = utf8 "alice";
  git_name = [];
  git_email = [];
  machine = [];
  os_user = [];
}

abbrev report : Bytes → Report
report id = record {
  report_id = id;
  change_id = id;
  reported_at = 4;
  developer = alice;
  repo = utf8 "svc";
  remote = [];
  branch = utf8 "main";
  head_sha = [];
  shadow_ref = [];
  shadow_sha = [];
  files = [];
  lines_added = 1;
  lines_removed = 0;
  languages = [];
  redacted_paths = [];
  relevance = [];
  categories = [];
  escalated = false;
  verdict = [];
  findings_count = 0;
  review_summary = [];
  status = done;
}

-- The first `n` bytes, each raised by one, behind as many ones as are missing.
abbrev pad : ℕ → Bytes → Bytes
pad zero s = []
pad (suc n) [] = 1 ∷ pad n []
pad (suc n) (c ∷ s) = suc c ∷ pad n s

length-pad : (n : ℕ) (s : Bytes) → length (pad n s) ≡ n
length-pad zero s = refl
length-pad (suc n) [] = ap suc (length-pad n [])
length-pad (suc n) (c ∷ s) = ap suc (length-pad n s)

pad-Lacks : (n : ℕ) (s : Bytes) → Lacks 0 (pad n s)
pad-Lacks zero s = tt
pad-Lacks (suc n) [] = (omega arith, pad-Lacks n [])
pad-Lacks (suc n) (c ∷ s) = (omega arith, pad-Lacks n s)

pad-IsHexDigest : IsHexDigest (pad 64)
pad-IsHexDigest = record { len = length-pad 64; no_nul = pad-Lacks 64 }

abbrev plain : HubLibrary
plain = record { digest = pad 64; marshal_report = λ r. r.report_id; format_time = λ t. t ∷ [] }

abbrev start : Conn HubDb
start = record { db = empty_hub; faults = [] }

abbrev one : Conn HubDb
one = (append plain 5 (report (utf8 "a")) start).1

abbrev two : Conn HubDb
two = (append plain 6 (report (utf8 "b")) one).1

appends_first :
    (append plain 5 (report (utf8 "a")) start).0
    ≡ ok (1, chain_hash (pad 64) genesis_hash (utf8 "a"))
unfolding append transaction exec row_for
appends_first = refl

verifies_two : (verify (pad 64) two).0 ≡ ok (sound (pad 64) 2)
unfolding verify append transaction exec row_for chain_hash str_eq
verifies_two = refl

abbrev row : ℕ → Bytes → Bytes → AuditRow
row n prev payload = record {
  seq = n;
  report_id = payload;
  change_id = payload;
  reported_at = [];
  received_at = [];
  developer = alice;
  repo = [];
  branch = [];
  head_sha = [];
  relevance = [];
  verdict = [];
  findings = 0;
  status = done;
  prev_hash = prev;
  entry_hash = pad 64 (prev ++ 0 ∷ payload);
  payload = payload;
}

abbrev row_a : AuditRow
row_a = row 1 genesis_hash (utf8 "a")

abbrev row_b : AuditRow
row_b = row 2 row_a.entry_hash (utf8 "b")

verifies_rows : (verify_rows (pad 64) genesis_hash 0 (row_a ∷ row_b ∷ [])).ok_chain ≡ true
unfolding verify_rows chain_hash str_eq
verifies_rows = refl

tamper_evident_example :
    (map (λ (r : AuditRow). r.payload) (row_a ∷ row_b ∷ [])
      ≡ map (λ (r : AuditRow). r.payload) (row_a ∷ row_b ∷ []))
    ⊎ Collision (pad 64) (row_a ∷ row_b ∷ []) (row_a ∷ row_b ∷ [])
tamper_evident_example =
    tamper_evident (pad 64) pad-IsHexDigest (row_a ∷ row_b ∷ []) (row_a ∷ row_b ∷ []) verifies_rows
      verifies_rows refl

one_finds : FindsReport one
unfolding append transaction exec row_for
one_finds = refl

one_reads : ReadsLast plain 6 (report (utf8 "b")) one
unfolding append transaction exec row_for
one_reads = refl

append_records_example :
    Ends
      (append plain 6 (report (utf8 "b")))
      one
      (λ e c'. (c'.db ≡ one.db) × IsFault one.faults e)
      (λ b c'.
        IsRecorded plain 6
          (report (utf8 "b"))
          one
          one_finds
          one_reads
          (find_report (utf8 "b") one.db.audit)
          b
          c'.db)
append_records_example = append_records plain 6 (report (utf8 "b")) one one_finds one_reads

append-IsChained_example :
    IsChained (pad 64) genesis_hash (append plain 5 (report (utf8 "a")) start).1.db.audit
append-IsChained_example = append-IsChained plain 5 (report (utf8 "a")) start refl tt

append_again_example :
    Ends
      (append plain 8 (report (utf8 "a")))
      one
      (λ e c''. (c''.db ≡ one.db) × IsTxFault one e)
      (λ b c''. (b ≡ (1, chain_hash (pad 64) genesis_hash (utf8 "a"))) × (c''.db ≡ one.db))
unfolding append transaction exec row_for
append_again_example =
    append_again plain 5 8 (report (utf8 "a")) start one
      (1, chain_hash (pad 64) genesis_hash (utf8 "a")) refl refl refl (report (utf8 "a")) refl refl

abbrev d_one : HubDb
d_one = record { audit = row_a ∷ []; last_seq = 1 }

new_b : find_report (utf8 "b") d_one.audit ≡ none
unfolding find_report str_eq
new_b = refl

last_a : last_hash genesis_hash d_one.audit ≢ genesis_hash
unfolding last_hash
last_a e = absurd (omega (arith, ap (length {A = ℕ}) e))

entry_ne_genesis : row_a.entry_hash ≢ last_hash genesis_hash []
unfolding last_hash
entry_ne_genesis e = absurd (omega (arith, ap (length {A = ℕ}) e))

verify-truncated_example : verify_rows (pad 64) genesis_hash 0 (row_a ∷ []) ≡ sound (pad 64) 1
verify-truncated_example = verify-truncated (pad 64) (row_a ∷ []) (row_b ∷ []) verifies_rows

append_breaks_chain_example :
    ((append plain 6
        (report (utf8 "b"))
        (record { db = d_one; faults = none ∷ none ∷ some [] ∷ [] })).0
      ≡ ok (1 + 1, chain_hash (pad 64) genesis_hash (utf8 "b")))
    × ((verify_rows
          (pad 64)
          genesis_hash
          0
          (append plain 6
            (report (utf8 "b"))
            (record { db = d_one; faults = none ∷ none ∷ some [] ∷ [] })).1.db.audit).ok_chain
        ≢ true)
append_breaks_chain_example = append_breaks_chain plain 6 (report (utf8 "b")) d_one [] new_b last_a
