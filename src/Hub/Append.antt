-- ===== src/Hub/Append.antt =====
-- What Append leaves and returns, whatever statements fail.
use director_orson_callan_kr.Base.{
  Ends, Ends-intro, ℕ, ◌+◌, Bytes, ◌≡◌, refl, sym, ◌∙◌, Option, none, some, Option-cases, inl, inr,
  ◌⊎◌, err, List, [], ◌∷◌, ◌++◌, ok, arith, str_eq_iff, Outcome-elim, Outcome-map, Outcome-ok,
}
use director_orson_callan_kr.Model.{Time}
use director_orson_callan_kr.Audit.{Report, genesis_hash}
use director_orson_callan_kr.Sql.{Conn, exec, transaction, next_fault, later_faults}
use director_orson_callan_kr.Sql.Laws.{transaction-err}
use director_orson_callan_kr.Hub.Log.{
  AuditRow, HubDb, HubLibrary, find_report, last_hash, row_for, append,
}
use director_orson_callan_kr.Hub.Chain.{IsChained, IsChained-append}

-- The log with a row at its end, unless there is an old one.
abbrev pub with_row : Option AuditRow → AuditRow → HubDb → HubDb
with_row (some old) row d = d
with_row none row d = record { audit = d.audit ++ row ∷ []; last_seq = d.last_seq + 1 }

-- The number and the hash of the old row, or of the new one.
abbrev pub entry_or : Option AuditRow → AuditRow → ℕ × Bytes
entry_or (some old) row = (old.seq, old.entry_hash)
entry_or none row = (row.seq, row.entry_hash)

module _ (lib : HubLibrary) (now : Time) (r : Report) where
  abbrev pub new_row : HubDb → AuditRow
  new_row d = row_for lib now r (last_hash genesis_hash d.audit) (d.last_seq + 1)

  -- The log behind the report: as it was if it has the report, and else with one row more.
  abbrev pub appended : HubDb → HubDb
  appended d = with_row (find_report r.report_id d.audit) (new_row d) d

  -- The number and the hash of the report's row.
  abbrev pub entry_of : HubDb → ℕ × Bytes
  entry_of d = entry_or (find_report r.report_id d.audit) (new_row d)

  -- The query for the last hash, the third statement of Append, does not fail.
  abbrev pub ReadsLast : Conn HubDb → Type 0
  ReadsLast c = next_fault (later_faults (later_faults c.faults)) ≡ none

  pub append-ok :
      (c : Conn HubDb) (a : ℕ × Bytes)
      → ReadsLast c
      → (append lib now r c).0 ≡ ok a
      → (a ≡ entry_of c.db) × ((append lib now r c).1.db ≡ appended c.db)
  unfolding append transaction exec row_for
  append-ok c a l h = ground arith

  -- Append is atomic: when it returns an error, the log has not changed; when it succeeds and the
  -- query for the last hash has not failed, it returns the number and the hash of the report's row,
  -- and the log has that row at its end if it had none for the report id, and is unchanged if it had.
  pub append_atomic :
      (c : Conn HubDb)
      → ReadsLast c
      → Ends
          (append lib now r)
          c
          (λ e c'. c'.db ≡ c.db)
          (λ a c'. (a ≡ entry_of c.db) × (c'.db ≡ appended c.db))
  unfolding append
  append_atomic c l =
      Ends-intro (append lib now r) c (λ e c'. c'.db ≡ c.db)
        (λ a c'. (a ≡ entry_of c.db) × (c'.db ≡ appended c.db)) (λ e h. transaction-err _ c e h)
        (λ a h. append-ok c a l h)

  with_row-IsChained :
      (o : Option AuditRow) (d : HubDb)
      → IsChained lib.digest genesis_hash d.audit
      → IsChained lib.digest genesis_hash (with_row o (new_row d) d).audit
  with_row-IsChained (some old) d h = h
  with_row-IsChained none d h =
      IsChained-append lib.digest d.audit genesis_hash (new_row d) h (unfold row_for in refl)
        (unfold row_for in refl)

  -- Append keeps a log chained, whatever statements but the query for the last hash fail.
  pub append-IsChained :
      (c : Conn HubDb)
      → ReadsLast c
      → IsChained lib.digest genesis_hash c.db.audit
      → IsChained lib.digest genesis_hash (append lib now r c).1.db.audit
  append-IsChained c l h =
      Outcome-elim (append lib now r c).0 (λ e. (append lib now r c).1.db ≡ c.db)
        (λ a. (a ≡ entry_of c.db) × ((append lib now r c).1.db ≡ appended c.db))
        (IsChained lib.digest genesis_hash (append lib now r c).1.db.audit) (append_atomic c l)
        (λ e k. rw k h)
        (λ a k. rw (k.1) (with_row-IsChained (find_report r.report_id c.db.audit) c.db h))

find_report-append :
    (id : Bytes) (rows : List AuditRow) (row : AuditRow)
    → row.report_id ≡ id
    → find_report id rows ≡ none
    → find_report id (rows ++ row ∷ []) ≡ some row
unfolding find_report
find_report-append id [] row same h = ground (arith, str_eq_iff row.report_id id)
find_report-append id (s ∷ rows) row same h = ground (arith, find_report-append id rows row same)

-- A row is found by its report id in the log that it is added to.
pub find_report-with_row :
    (id : Bytes) (row : AuditRow) (d : HubDb)
    → row.report_id ≡ id
    → (found : AuditRow) × (find_report id (with_row (find_report id d.audit) row d).audit
        ≡ some found)
      × ((found.seq, found.entry_hash) ≡ entry_or (find_report id d.audit) row)
find_report-with_row id row d same = elim (Option-cases (find_report id d.audit)) [
  | inr (old, e) ↦ rw e (old, e, refl)
  | inl e ↦ rw e (row, find_report-append id d.audit row same e, refl)
]

-- The query for the report, the second statement of Append, does not fail.
abbrev pub FindsReport : Conn HubDb → Type 0
FindsReport c = next_fault (later_faults c.faults) ≡ none

-- The driver fails the begin of a transaction, or its third statement, with this error.
abbrev pub IsTxFault : Conn HubDb → Bytes → Type 0
IsTxFault c e =
    (next_fault c.faults ≡ some e) ⊎ (next_fault (later_faults (later_faults c.faults)) ≡ some e)

-- An Append of a report that the log has.
module _ (lib : HubLibrary) (later : Time) (again : Report) (old : AuditRow) (c : Conn HubDb)
    (known : find_report again.report_id c.db.audit ≡ some old) (finds : FindsReport c) where
  pub known-err : (e : Bytes) → (append lib later again c).0 ≡ err e → IsTxFault c e
  unfolding append transaction exec
  known-err e h = elim (Option-cases (next_fault c.faults)) [
    | inr (f, k) ↦ inl (ground (arith, h, k))
    | inl k ↦ inr (ground (arith, h, k, known, finds))
  ]

  pub known-ok :
      (b : ℕ × Bytes)
      → (append lib later again c).0 ≡ ok b
      → (b ≡ (old.seq, old.entry_hash)) × ((append lib later again c).1.db ≡ c.db)
  unfolding append transaction exec
  known-ok b h = ground (arith, h, known, finds)

  append-known :
      Ends
        (append lib later again)
        c
        (λ e c'. (c'.db ≡ c.db) × IsTxFault c e)
        (λ b c'. (b ≡ (old.seq, old.entry_hash)) × (c'.db ≡ c.db))
  unfolding append
  append-known =
      Ends-intro (append lib later again) c (λ e c'. (c'.db ≡ c.db) × IsTxFault c e)
        (λ b c'. (b ≡ (old.seq, old.entry_hash)) × (c'.db ≡ c.db))
        (λ e h. (transaction-err _ c e h, known-err e h)) (λ b h. known-ok b h)

module _ (lib : HubLibrary) (now later : Time) (r : Report) (c c' : Conn HubDb) (a : ℕ × Bytes)
    (first : (append lib now r c).0 ≡ ok a) (read : ReadsLast lib now r c)
    (stored : c'.db ≡ (append lib now r c).1.db) where
  stored-appended : (a ≡ entry_of lib now r c.db) × (c'.db ≡ appended lib now r c.db)
  stored-appended =
      let (e, k) =
        Outcome-ok (append lib now r c).0 (λ e. (append lib now r c).1.db ≡ c.db)
          (λ b.
            (b ≡ entry_of lib now r c.db) × ((append lib now r c).1.db ≡ appended lib now r c.db))
          a first (append_atomic lib now r c read) in
      (e, stored ∙ k)

  -- Append is idempotent by report id: once a report is stored, by an Append whose query for the last
  -- hash has not failed, an Append of a report with the same id, whose query for the report does not
  -- fail, changes nothing, and returns the same number and hash, unless the driver fails its begin or
  -- its commit: then it returns that error.
  pub append_again :
      (again : Report)
      → again.report_id ≡ r.report_id
      → FindsReport c'
      → Ends
          (append lib later again)
          c'
          (λ e c''. (c''.db ≡ c'.db) × IsTxFault c' e)
          (λ b c''. (b ≡ a) × (c''.db ≡ c'.db))
  append_again again same finds =
      let (is_entry, is_db) = stored-appended in
      let (found, here, pair) =
        find_report-with_row r.report_id (new_row lib now r c.db) c.db (unfold row_for in refl) in
      let known : find_report again.report_id c'.db.audit ≡ some found = rw (same, is_db) here in
      Outcome-map (append lib later again c').0
        (λ e. ((append lib later again c').1.db ≡ c'.db) × IsTxFault c' e)
        (λ e. ((append lib later again c').1.db ≡ c'.db) × IsTxFault c' e)
        (λ b. (b ≡ (found.seq, found.entry_hash)) × ((append lib later again c').1.db ≡ c'.db))
        (λ b. (b ≡ a) × ((append lib later again c').1.db ≡ c'.db))
        (append-known lib later again found c' known finds) (λ e k. k)
        λ b k. (k.0 ∙ pair ∙ sym is_entry, k.1)
