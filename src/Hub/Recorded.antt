-- ===== src/Hub/Recorded.antt =====
-- krennic/internal/hub/store.go: what Append records of a report, and which errors it returns.
use director_orson_callan_kr.Base.{
  Ends, Ends-intro, ℕ, ◌+◌, Bytes, ◌≡◌, refl, Option, none, some, Option-cases, inl, inr, [], ◌∷◌,
  ◌++◌, ok, err, arith,
}
use director_orson_callan_kr.Model.{Time}
use director_orson_callan_kr.Audit.{Report, genesis_hash, chain_hash}
use director_orson_callan_kr.Sql.{Conn, exec, transaction, next_fault}
use director_orson_callan_kr.Sql.Laws.{skip, IsFault, transaction-err}
use director_orson_callan_kr.Hub.Log.{
  AuditRow, HubDb, HubLibrary, find_report, last_hash, row_for, append,
}
use director_orson_callan_kr.Hub.Append.{
  ReadsLast, FindsReport, known-err, known-ok, new_row, append-ok,
}

module _ (lib : HubLibrary) (now : Time) (r : Report) (c : Conn HubDb) (finds : FindsReport c)
    (reads : ReadsLast lib now r c) where
  new-err :
      (e : Bytes)
      → find_report r.report_id c.db.audit ≡ none
      → (append lib now r c).0 ≡ err e
      → IsFault c.faults e
  unfolding append transaction exec row_for
  new-err e new h = elim (Option-cases (next_fault c.faults)) [
    | inr (f, k) ↦ (0, ground (arith, h, k))
    | inl k ↦ elim (Option-cases (next_fault (skip 3 c.faults))) [
      | inr (f, j) ↦ (3, ground (arith, h, k, j, new, finds, reads))
      | inl j ↦ (4, ground (arith, h, k, j, new, finds, reads))
    ]
  ]

  any-err : (e : Bytes) → (append lib now r c).0 ≡ err e → IsFault c.faults e
  any-err e h = elim (Option-cases (find_report r.report_id c.db.audit)) [
    | inl new ↦ new-err e new h
    | inr (old, known) ↦ elim (known-err lib now r old c known finds e h) [
      | inl k ↦ (0, k)
      | inr k ↦ (2, k)
    ]
  ]

  -- What Append returned and left: the old entry and the log as it was, or the number and the hash
  -- of one more entry, which has the report and is chained to the last one.
  unfoldable pub IsRecorded : Option AuditRow → ℕ × Bytes → HubDb → Type 0
  IsRecorded (some old) b d = (b ≡ (old.seq, old.entry_hash)) × (d ≡ c.db)
  IsRecorded none b d =
      (row : AuditRow) × (d.audit ≡ c.db.audit ++ row ∷ [])
      × (b ≡ (row.seq, row.entry_hash))
      × (row.seq ≡ c.db.last_seq + 1)
      × (d.last_seq ≡ row.seq)
      × (row.report_id ≡ r.report_id)
      × (row.developer ≡ r.developer)
      × (row.payload ≡ lib.marshal_report r)
      × (row.prev_hash ≡ last_hash genesis_hash c.db.audit)
      × (row.entry_hash ≡ chain_hash lib.digest row.prev_hash row.payload)

  ok-IsRecorded :
      (b : ℕ × Bytes)
      → (append lib now r c).0 ≡ ok b
      → (o : Option AuditRow) → find_report r.report_id c.db.audit ≡ o
      → IsRecorded o b (append lib now r c).1.db
  unfolding IsRecorded row_for
  ok-IsRecorded b h (some old) known = known-ok lib now r old c known finds b h
  ok-IsRecorded b h none new =
      let (entry, left) = append-ok lib now r c b reads h in
      let row = new_row lib now r c.db in
      rw (left, entry, new) (row, refl, refl, refl, refl, refl, refl, refl, refl, refl)

  -- Append records a report once, or leaves the log as it was: where its queries for the report and
  -- for the last hash do not fail, an error is that of a statement that the driver fails, and the
  -- log has not changed; a success returns the number and the hash of the entry with the report's
  -- id, if the log has one, and the log has not changed, or those of one more entry, which has the
  -- next number, the report's id, developer and payload, and the hash of that payload behind the
  -- last hash.
  pub append_records :
      Ends
        (append lib now r)
        c
        (λ e c'. (c'.db ≡ c.db) × IsFault c.faults e)
        (λ b c'. IsRecorded (find_report r.report_id c.db.audit) b c'.db)
  unfolding append
  append_records =
      Ends-intro (append lib now r) c (λ e c'. (c'.db ≡ c.db) × IsFault c.faults e)
        (λ b c'. IsRecorded (find_report r.report_id c.db.audit) b c'.db)
        (λ e h. (transaction-err _ c e h, any-err e h))
        (λ b h. ok-IsRecorded b h (find_report r.report_id c.db.audit) refl)
