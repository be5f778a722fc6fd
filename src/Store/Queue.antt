-- ===== src/Store/Queue.antt =====
-- krennic/internal/store/store.go: the work queue. `now` is the reading of the store's clock.
use director_orson_callan_kr.Base.{
  lift, pure, ◌>>=◌, ◌>>◌, ℕ, ◌+◌, Bytes, Bool, false, Option, none, some, [], ◌∷◌, ltb, str_lt,
  if◌then◌else◌,
}
use director_orson_callan_kr.Model.{ChangeEvent, State, pending, analyzing, done, failed, Time}
use director_orson_callan_kr.Sql.{Sql, Exit, commit, leave, exec, transaction}
use director_orson_callan_kr.Sql.Table.{
  Table, find, upsert, update, remove, update_where, count_where,
}
use director_orson_callan_kr.Store.Schema.{
  QueueRow, RecordRow, DedupRow, Db, Library, is_pending, is_inflight,
}

-- The earlier of two rows by `enqueued_at`; of equal ones, the first that is scanned.
unfoldable pub older : Bytes × QueueRow → Option (Bytes × QueueRow) → Option (Bytes × QueueRow)
older r none = some r
older r (some b) = if str_lt (b.1).enqueued_at (r.1).enqueued_at then some b else some r

-- SELECT change_id,event FROM queue WHERE state='pending' ORDER BY enqueued_at LIMIT 1
unfoldable pub oldest_pending : Table QueueRow → Option (Bytes × QueueRow)
unfolding older
oldest_pending [] = none
oldest_pending (r ∷ t) =
    let best = oldest_pending t in if is_pending (r.1).state then older r best else best

-- UPDATE queue SET state=?, attempts=attempts+1, updated_at=? WHERE change_id=?
abbrev pub mark_claimed : Bytes → QueueRow → QueueRow
mark_claimed now row = record row {
  state = analyzing;
  attempts = row.attempts + 1;
  updated_at = now;
}

-- UPDATE records SET status=?, updated_at=? WHERE change_id=?
abbrev pub set_status : State → Bytes → RecordRow → RecordRow
set_status s now row = record row { status = s; updated_at = now }

-- UPDATE records SET status=?, error=?, updated_at=? WHERE change_id=?
abbrev pub set_failed : Bytes → Bytes → RecordRow → RecordRow
set_failed msg now row = record row { status = failed; error = some msg; updated_at = now }

-- The three statements of Enqueue, on the JSON of the event and the text of the time.
abbrev pub put_queue : ChangeEvent → Bytes → Bytes → Db → Db
put_queue ev blob now d = record d {
  queue =
      upsert ev.change_id
        (record {
          state = pending;
          event = blob;
          attempts = 0;
          enqueued_at = now;
          updated_at = now;
        })
        (λ row. record row { state = pending; event = blob; updated_at = now }) d.queue;
}

abbrev pub put_record : ChangeEvent → Bytes → Bytes → Db → Db
put_record ev blob now d = record d {
  records =
      upsert ev.change_id
        (record {
          event = blob;
          triage = none;
          review = none;
          status = pending;
          error = none;
          updated_at = now;
        })
        (λ row. record row { event = blob; status = pending; updated_at = now }) d.records;
}

abbrev pub put_dedup : ChangeEvent → Bytes → Db → Db
put_dedup ev now d =
    let row : DedupRow = record { change_id = ev.change_id; seen_at = now } in
    record d { dedup = upsert ev.content_hash row (λ _. row) d.dedup }

module _ (lib : Library) where
  seen_at_recently : Time → ℕ → Option DedupRow → Bool
  seen_at_recently now window none = false
  seen_at_recently now window (some row) = elim (lib.parse_time row.seen_at) [
    | none ↦ false
    | some t ↦ ltb now (t + window)
  ]

  -- SeenRecently. `now.Sub(t) < window` is a test of `now < t + window`.
  unfoldable pub seen_recently : Time → Bytes → ℕ → Sql Db Bool
  unfolding seen_at_recently
  seen_recently now content_hash window = do
    row ← exec (λ d. (find content_hash d.dedup, d))
    pure (seen_at_recently now window row)

  -- The transaction of Enqueue.
  unfoldable pub enqueue_blob : Bytes → ChangeEvent → Bytes → Sql Db Unit
  enqueue_blob now ev blob = transaction do
    exec (λ d. (tt, put_queue ev blob now d))
    exec (λ d. (tt, put_record ev blob now d))
    exec (λ d. (tt, put_dedup ev now d))
    pure (commit tt)

  unfoldable pub enqueue : Time → ChangeEvent → Sql Db Unit
  unfolding enqueue_blob
  enqueue now ev = do blob ← lift (lib.marshal_event ev); enqueue_blob (lib.format_time now) ev blob

  claim_row : Bytes → Option (Bytes × QueueRow) → Sql Db (Exit (Option Bytes))
  claim_row now none = pure (leave none)
  claim_row now (some (id, row)) = do
    exec (λ d. (tt, record d { queue = update id (mark_claimed now) d.queue }))
    exec (λ d. (tt, record d { records = update id (set_status analyzing now) d.records }))
    pure (commit (some row.event))

  decode_claimed : Option Bytes → Sql Db (Option ChangeEvent)
  decode_claimed none = pure none
  decode_claimed (some blob) = do ev ← lift (lib.unmarshal_event blob); pure (some ev)

  -- The transaction of Claim: the JSON of the claimed event, `none` for an empty queue.
  unfoldable pub claim_blob : Time → Sql Db (Option Bytes)
  unfolding claim_row
  claim_blob now =
      transaction
        do found ← exec (λ d. (oldest_pending d.queue, d)); claim_row (lib.format_time now) found

  unfoldable pub claim : Time → Sql Db (Option ChangeEvent)
  unfolding claim_blob decode_claimed
  claim now = do blob ← claim_blob now; decode_claimed blob

  unfoldable pub complete : Time → Bytes → Sql Db Unit
  complete now change_id = do
    exec (λ d. (tt, record d { queue = remove change_id d.queue }))
    exec (λ d. (
      tt,
      record d { records = update change_id (set_status done (lib.format_time now)) d.records },
    ))

  unfoldable pub fail : Time → Bytes → Bytes → Sql Db Unit
  fail now change_id err_msg = do
    exec (λ d. (
      tt,
      record d {
        queue =
            update change_id
              (λ row. record row { state = failed; updated_at = lib.format_time now }) d.queue;
      },
    ))
    exec (λ d. (
      tt,
      record d { records = update change_id (set_failed err_msg (lib.format_time now)) d.records },
    ))

-- ResetInflight; the result is the number of rows changed.
unfoldable pub reset_inflight : Sql Db ℕ
reset_inflight = exec (λ d. (
  count_where (λ row. is_inflight row.state) d.queue,
  record d {
    queue =
        update_where (λ row. is_inflight row.state) (λ row. record row { state = pending }) d.queue;
  },
))

unfoldable pub pending_count : Sql Db ℕ
pending_count = exec (λ d. (count_where (λ row. is_pending row.state) d.queue, d))
