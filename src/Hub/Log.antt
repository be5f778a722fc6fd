-- ===== src/Hub/Log.antt =====
-- krennic/internal/hub/store.go: the audit table, Append, Feed, Verify and Stats.
use director_orson_callan_kr.Base.{
  lift, pure, ◌>>=◌, ℕ, suc, ◌+◌, Bytes, Bool, true, false, not, ◌&&◌, ◌||◌, Option, none, some,
  List, [], ◌∷◌, ◌++◌, map, Result, ok, err, length, take, any, str_eq, utf8, if◌then◌else◌,
}
use mathlib.Core.List.{reverse}
use director_orson_callan_kr.Model.{Developer, State, Time}
use director_orson_callan_kr.Audit.{Report, genesis_hash, chain_hash}
use director_orson_callan_kr.Sql.{Sql, Exit, commit, exec, transaction}

pub record AuditRow : Type 0 where
  pub seq : ℕ
  pub report_id : Bytes
  pub change_id : Bytes
  pub reported_at : Bytes
  pub received_at : Bytes
  pub developer : Developer
  pub repo : Bytes
  pub branch : Bytes
  pub head_sha : Bytes
  pub relevance : Bytes
  pub verdict : Bytes
  pub findings : ℕ
  pub status : State
  pub prev_hash : Bytes
  pub entry_hash : Bytes
  pub payload : Bytes

-- The rows in the order of `seq`, and the last number that AUTOINCREMENT has given.
pub record HubDb : Type 0 where
  pub audit : List AuditRow
  pub last_seq : ℕ

abbrev pub empty_hub : HubDb
empty_hub = record { audit = []; last_seq = 0 }

-- The digest of ChainHash, the JSON of a report, and the text form of times.
pub record HubLibrary : Type 0 where
  pub digest : Bytes → Bytes
  pub marshal_report : Report → Bytes
  pub format_time : Time → Bytes

-- SELECT … WHERE report_id=?
unfoldable pub find_report : Bytes → List AuditRow → Option AuditRow
find_report id [] = none
find_report id (row ∷ rows) = if str_eq row.report_id id then some row else find_report id rows

-- The hash of the row with the greatest `seq`, or the value that `prevHash` has before the query.
unfoldable pub last_hash : Bytes → List AuditRow → Bytes
last_hash prev [] = prev
last_hash prev (row ∷ rows) = last_hash row.entry_hash rows

-- A call whose error the caller drops.
abbrev pub attempt : {A : Type 0} → A → Sql HubDb A → Sql HubDb A
attempt default m c = (ok (elim (m c).0 [ ok a ↦ a | err e ↦ default ]), (m c).1)

-- The error of the constraint on report_id.
abbrev pub unique_violation : Bytes
unique_violation = utf8 "UNIQUE constraint failed: audit.report_id"

insert_row : AuditRow → HubDb → Result (ℕ × Bytes) × HubDb
insert_row row d = elim (find_report row.report_id d.audit) [
  | some old ↦ (err unique_violation, d)
  | none ↦ (
    ok (row.seq, row.entry_hash),
    record { audit = d.audit ++ row ∷ []; last_seq = d.last_seq + 1 },
  )
]

module _ (lib : HubLibrary) where
  -- The row of a report that follows `prev` as number `seq`.
  unfoldable pub row_for : Time → Report → Bytes → ℕ → AuditRow
  row_for now r prev seq = record {
    seq = seq;
    report_id = r.report_id;
    change_id = r.change_id;
    reported_at = lib.format_time r.reported_at;
    received_at = lib.format_time now;
    developer = r.developer;
    repo = r.repo;
    branch = r.branch;
    head_sha = r.head_sha;
    relevance = r.relevance;
    verdict = r.verdict;
    findings = r.findings_count;
    status = r.status;
    prev_hash = prev;
    entry_hash = chain_hash lib.digest prev (lib.marshal_report r);
    payload = lib.marshal_report r;
  }

  insert_next : Time → Report → Bytes → Sql HubDb (ℕ × Bytes)
  unfolding insert_row row_for
  insert_next now r prev = do
    result ← exec (λ d. insert_row (row_for now r prev (d.last_seq + 1)) d)
    lift result

  append_unless : Time → Report → Option AuditRow → Sql HubDb (Exit (ℕ × Bytes))
  unfolding insert_next
  append_unless now r (some old) = pure (commit (old.seq, old.entry_hash))
  append_unless now r none = do
    prev ← attempt genesis_hash (exec (λ d. (last_hash genesis_hash d.audit, d)))
    entry ← insert_next now r prev
    pure (commit entry)

  -- Append: the sequence number and the hash of the entry. An error of the first two queries is
  -- dropped.
  unfoldable pub append : Time → Report → Sql HubDb (ℕ × Bytes)
  unfolding append_unless find_report last_hash
  append now r = transaction do
    existing ← attempt none (exec (λ d. (find_report r.report_id d.audit, d)))
    append_unless now r existing

pub record Entry : Type 0 where
  pub seq : ℕ
  pub received_at : Bytes
  pub prev_hash : Bytes
  pub entry_hash : Bytes
  pub report : Bytes

abbrev pub to_entry : AuditRow → Entry
to_entry row = record {
  seq = row.seq;
  received_at = row.received_at;
  prev_hash = row.prev_hash;
  entry_hash = row.entry_hash;
  report = row.payload;
}

-- The conditions of Feed: an empty filter is no condition.
unfoldable pub in_feed : Bytes → Bytes → AuditRow → Bool
in_feed user repo row =
    (str_eq user [] || str_eq row.developer.user_slug user)
    && (str_eq repo [] || str_eq row.repo repo)

unfoldable pub select : (AuditRow → Bool) → List AuditRow → List AuditRow
select p [] = []
select p (row ∷ rows) = let rest = select p rows in if p row then row ∷ rest else rest

unfoldable pub feed : ℕ → Bytes → Bytes → Sql HubDb (List Entry)
unfolding in_feed select
feed limit user repo =
    exec (λ d. (map to_entry (take limit (reverse (select (in_feed user repo) d.audit))), d))

-- VerifyResult; the two details of a break.
pub data Detail : Type 0 where
  no_detail prev_hash_broken entry_hash_broken : Detail

pub record VerifyResult : Type 0 where
  pub ok_chain : Bool
  pub count : ℕ
  pub broken_seq : ℕ
  pub detail : Detail

-- The loop of Verify, from the variables `prev` and `count`.
unfoldable pub verify_rows : (Bytes → Bytes) → Bytes → ℕ → List AuditRow → VerifyResult
verify_rows digest prev count [] = record {
  ok_chain = true;
  count = count;
  broken_seq = 0;
  detail = no_detail;
}
verify_rows digest prev count (row ∷ rows) =
    let rest = verify_rows digest row.entry_hash (count + 1) rows in
    if not (str_eq row.prev_hash prev)
    then record { ok_chain = false; count = count; broken_seq = row.seq; detail = prev_hash_broken }
    else if not (str_eq (chain_hash digest prev row.payload) row.entry_hash)
    then record {
      ok_chain = false;
      count = count;
      broken_seq = row.seq;
      detail = entry_hash_broken;
    }
    else rest

unfoldable pub verify : (Bytes → Bytes) → Sql HubDb VerifyResult
unfolding verify_rows
verify digest = exec (λ d. (verify_rows digest genesis_hash 0 d.audit, d))

-- SELECT COUNT(DISTINCT …)
unfoldable pub count_distinct : (AuditRow → Bytes) → List AuditRow → ℕ
count_distinct f [] = 0
count_distinct f (row ∷ rows) =
    let rest = count_distinct f rows in
    if any (λ r. str_eq (f r) (f row)) rows then rest else suc rest

pub record StatsResult : Type 0 where
  pub total : ℕ
  pub developers : ℕ
  pub repos : ℕ

-- Stats: a count whose query fails stays 0.
unfoldable pub stats : Sql HubDb StatsResult
unfolding count_distinct
stats = do
  total ← attempt 0 (exec (λ d. (length d.audit, d)))
  users ← attempt 0 (exec (λ d. (count_distinct (λ row. row.developer.user_slug) d.audit, d)))
  repos ← attempt 0 (exec (λ d. (count_distinct (λ row. row.repo) d.audit, d)))
  pure (record { total = total; developers = users; repos = repos })
