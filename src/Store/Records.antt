-- ===== src/Store/Records.antt =====
-- krennic/internal/store/store.go: the results shown in the UI, the retention, and the costs.
use director_orson_callan_kr.Base.{
  lift, pure, ◌>>=◌, ℕ, Bytes, Bool, Option, none, some, List, [], ◌∷◌, map, Result, ok, err, ◌&&◌,
  str_lt, take, utf8, if◌then◌else◌,
}
use director_orson_callan_kr.Model.{TriageResult, ReviewResult, Record, Time, Float64}
use director_orson_callan_kr.Sql.{Sql, exec}
use director_orson_callan_kr.Sql.Table.{Table, find, upsert, update, remove_where, count_where}
use director_orson_callan_kr.Store.Schema.{RecordRow, DedupRow, Db, Library, is_finished}

-- The message of sql.ErrNoRows.
abbrev pub no_rows : Bytes
no_rows = utf8 "sql: no rows in result set"

-- ORDER BY key DESC; equal keys stay in the order of the scan.
insert_desc : Bytes × RecordRow → List (Bytes × RecordRow) → List (Bytes × RecordRow)
insert_desc r [] = r ∷ []
insert_desc r (s ∷ rows) =
    if str_lt (r.1).updated_at (s.1).updated_at then s ∷ insert_desc r rows else r ∷ s ∷ rows

unfoldable pub newest_first : Table RecordRow → List (Bytes × RecordRow)
unfolding insert_desc
newest_first [] = []
newest_first (r ∷ rows) = insert_desc r (newest_first rows)

module _ (lib : Library) where
  -- SaveTriage
  unfoldable pub save_triage : Time → Bytes → TriageResult → Sql Db Unit
  save_triage now change_id tr = exec (λ d. (
    tt,
    record d {
      records =
          update change_id
            (λ row. record row {
              triage = some (lib.marshal_triage tr);
              updated_at = lib.format_time now;
            })
            d.records;
    },
  ))

  -- SaveReview
  unfoldable pub save_review : Time → Bytes → ReviewResult → Sql Db Unit
  save_review now change_id rv = exec (λ d. (
    tt,
    record d {
      records =
          update change_id
            (λ row. record row {
              review = some (lib.marshal_review rv);
              updated_at = lib.format_time now;
            })
            d.records;
    },
  ))

  -- A blob that is NULL, empty or no JSON of the type leaves the pointer nil.
  scan_blob {ℓ} : {A : Type ℓ} → (Bytes → Option A) → Option Bytes → Option A
  scan_blob parse none = none
  scan_blob parse (some []) = none
  scan_blob parse (some (b ∷ s)) = parse (b ∷ s)

  text_or_empty : Option Bytes → Bytes
  text_or_empty none = []
  text_or_empty (some s) = s

  time_or_zero : Option Time → Time
  time_or_zero none = 0
  time_or_zero (some t) = t

  unfoldable pub scan_record : RecordRow → Record
  unfolding scan_blob text_or_empty time_or_zero
  scan_record row = record {
    event = lib.event_or_zero row.event;
    triage = scan_blob lib.unmarshal_triage row.triage;
    review = scan_blob lib.unmarshal_review row.review;
    status = row.status;
    error = text_or_empty row.error;
    updated_at = time_or_zero (lib.parse_time row.updated_at);
  }

  found_record : Option RecordRow → Result Record
  unfolding scan_record
  found_record none = err no_rows
  found_record (some row) = ok (scan_record row)

  unfoldable pub get_record : Bytes → Sql Db Record
  unfolding found_record
  get_record change_id = do row ← exec (λ d. (find change_id d.records, d)); lift (found_record row)

  unfoldable pub recent_records : ℕ → Sql Db (List Record)
  unfolding newest_first scan_record
  recent_records limit = do
    rows ← exec (λ d. (take limit (newest_first d.records), d))
    pure (map (λ (r : Bytes × RecordRow). scan_record r.1) rows)

  abbrev pub is_expired_record : Bytes → RecordRow → Bool
  is_expired_record cutoff row = str_lt row.updated_at cutoff && is_finished row.status

  -- The error of the second statement is ignored.
  ignore_error : ℕ → Sql Db Unit → Sql Db ℕ
  ignore_error n m c = (ok n, (m c).1)

  -- PruneOlderThan; the result is the number of records deleted.
  unfoldable pub prune_older_than : Time → Sql Db ℕ
  unfolding ignore_error
  prune_older_than cutoff = do
    n ← exec (λ d. (
      count_where (is_expired_record (lib.format_time cutoff)) d.records,
      record d { records = remove_where (is_expired_record (lib.format_time cutoff)) d.records },
    ))
    ignore_error n (
        exec (λ d. (
          tt,
          record d {
            dedup =
                remove_where (λ (row : DedupRow). str_lt row.seen_at (lib.format_time cutoff))
                  d.dedup;
          },
        )))

  -- AddCost
  unfoldable pub add_cost : Bytes → Float64 → Sql Db Unit
  add_cost day usd =
      exec (λ d. (tt, record d { costs = upsert day usd (λ old. lib.add old usd) d.costs }))

-- SpendForDay: 0.0 for a day without a row.
spend_or_zero : Option Float64 → Float64
spend_or_zero none = 0
spend_or_zero (some usd) = usd

unfoldable pub spend_for_day : Bytes → Sql Db Float64
unfolding spend_or_zero
spend_for_day day = exec (λ d. (spend_or_zero (find day d.costs), d))
