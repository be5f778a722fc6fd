-- ===== src/Store/Lifecycle/Tracked.antt =====
-- How the rows of the queue and the records belong together.
use director_orson_callan_kr.Base.{
  Bytes, ◌≡◌, Bool, true, Option, none, some, List, [], ◌∷◌, arith, str_eq_iff, ◌||◌, not,
  Option-cases, Outcome-elim, inl, inr,
}
use director_orson_callan_kr.Model.{
  TriageResult, ReviewResult, ChangeEvent, done, failed, pending, Time,
}
use director_orson_callan_kr.Sql.{Conn, exec}
use director_orson_callan_kr.Sql.Table.{
  find, remove_where, find-upsert, find-update, find-remove, find-update_where,
}
use director_orson_callan_kr.Sql.Keys.{
  IsKeyed, upsert-IsKeyed, update-IsKeyed, remove-IsKeyed, update_where-IsKeyed, find-remove_where,
  find-none-remove_where,
}
use director_orson_callan_kr.Store.Schema.{
  QueueRow, RecordRow, Db, Library, is_finished, is_pending, is_inflight,
}
use director_orson_callan_kr.Store.Outbox.{enqueue_outbox, delete_outbox, inc_outbox_attempts}
use director_orson_callan_kr.Store.Lifecycle.Defs.{
  Op, enqueue_op, claim_op, complete_op, fail_op, reset_op, save_triage_op, save_review_op,
  add_cost_op, prune_op, enqueue_outbox_op, delete_outbox_op, inc_outbox_op, read_op, apply,
  apply_all,
}
use director_orson_callan_kr.Store.Enqueue.{enqueued, Stored, enqueue_atomic}
use director_orson_callan_kr.Store.Claim.{claim-claim_blob, claimed, Claimed, claim_oldest}
use director_orson_callan_kr.Store.Oldest.{find-oldest_pending}
use director_orson_callan_kr.Store.Records.{
  save_triage, save_review, prune_older_than, is_expired_record, add_cost,
}
use director_orson_callan_kr.Store.Queue.{
  set_status, set_failed, enqueue, claim, claim_blob, complete, fail, reset_inflight,
}

-- A queue row is finished, or its record is there and not finished.
abbrev pub is_recorded : Option QueueRow → Option RecordRow → Bool
is_recorded none r = true
is_recorded (some q) none = is_finished q.state
is_recorded (some q) (some r) = is_finished q.state || not (is_finished r.status)

pub record IsTracked (d : Db) : Type 0 where
  pub keyed : IsKeyed d.queue
  pub recorded : (id : Bytes) → is_recorded (find id d.queue) (find id d.records) ≡ true

enqueued-IsTracked :
    (ev : ChangeEvent) (blob now : Bytes) (d : Db)
    → IsTracked d
    → IsTracked (enqueued ev blob now d)
enqueued-IsTracked ev blob now d h = record {
  keyed = upsert-IsKeyed ev.change_id _ _ d.queue h.keyed;
  recorded = λ id.
      rw (find-upsert, find-upsert) (ground (arith, h.recorded id, str_eq_iff ev.change_id id));
}

claimed-IsTracked :
    (id now : Bytes) (row : QueueRow) (d : Db)
    → find id d.queue ≡ some row
    → is_pending row.state ≡ true
    → IsTracked d
    → IsTracked (claimed id now d)
claimed-IsTracked id now row d found p h = record {
  keyed = update-IsKeyed id _ d.queue h.keyed;
  recorded = λ j. rw (find-update, find-update) (ground (arith, h.recorded j, str_eq_iff id j));
}

module _ (lib : Library) (c : Conn Db) (h : IsTracked c.db) where
  complete-IsTracked : (now : Time) (id : Bytes) → IsTracked (complete lib now id c).1.db
  unfolding complete exec
  complete-IsTracked now id = record {
    keyed = ground (arith, remove-IsKeyed id c.db.queue h.keyed, h.keyed);
    recorded = λ j. ground (
      arith,
      h.recorded j,
      find-remove id j c.db.queue,
      find-update id j (set_status done (lib.format_time now)) c.db.records,
    );
  }

  fail-IsTracked : (now : Time) (id msg : Bytes) → IsTracked (fail lib now id msg c).1.db
  unfolding fail exec
  fail-IsTracked now id msg =
      let stamp = lib.format_time now in
      let f = λ (row : QueueRow). record row { state = failed; updated_at = stamp } in
      record {
        keyed = ground (arith, update-IsKeyed id f c.db.queue h.keyed, h.keyed);
        recorded = λ j. ground (
          arith,
          h.recorded j,
          find-update id j f c.db.queue,
          find-update id j (set_failed msg stamp) c.db.records,
        );
      }

  reset_inflight-IsTracked : IsTracked (reset_inflight c).1.db
  unfolding reset_inflight exec
  reset_inflight-IsTracked =
      let p = λ (row : QueueRow). is_inflight row.state in
      let f = λ (row : QueueRow). record row { state = pending } in
      record {
        keyed = ground (arith, update_where-IsKeyed p f c.db.queue h.keyed, h.keyed);
        recorded = λ j. ground (arith, h.recorded j, find-update_where j p f c.db.queue);
      }

  enqueue-IsTracked : (now : Time) (ev : ChangeEvent) → IsTracked (enqueue lib now ev c).1.db
  enqueue-IsTracked now ev =
      Outcome-elim (enqueue lib now ev c).0 (λ e. (enqueue lib now ev c).1.db ≡ c.db)
        (λ a. Stored lib now ev c a (enqueue lib now ev c).1)
        (IsTracked (enqueue lib now ev c).1.db) (enqueue_atomic lib now ev c) (λ e k. rw k h)
        λ a k. rw (k.2) (enqueued-IsTracked ev k.0 (lib.format_time now) c.db h)

  Claimed-IsTracked :
      (now : Time) (o : Option Bytes) (c' : Conn Db) → Claimed lib now c o c' → IsTracked c'.db
  Claimed-IsTracked now none c' k = rw (k.1) h
  Claimed-IsTracked now (some blob) c' (id, row, picked, p, _, _, k) = rw k (
      claimed-IsTracked id (lib.format_time now) row c.db
        (find-oldest_pending c.db.queue (id, row) h.keyed picked) p h)

  claim-IsTracked : (now : Time) → IsTracked (claim lib now c).1.db
  claim-IsTracked now = rw (claim-claim_blob lib now c) (
      Outcome-elim (claim_blob lib now c).0 (λ e. (claim_blob lib now c).1.db ≡ c.db)
        (λ o. Claimed lib now c o (claim_blob lib now c).1) (IsTracked (claim_blob lib now c).1.db)
        (claim_oldest lib now c) (λ e k. rw k h)
        (λ o k. Claimed-IsTracked now o (claim_blob lib now c).1 k))

  save_triage-IsTracked :
      (now : Time) (id : Bytes) (tr : TriageResult) → IsTracked (save_triage lib now id tr c).1.db
  unfolding save_triage exec
  save_triage-IsTracked now id tr =
      let f = λ (row : RecordRow). record row {
        triage = some (lib.marshal_triage tr);
        updated_at = lib.format_time now;
      } in
      record {
        keyed = ground (arith, h.keyed);
        recorded = λ j. ground (arith, h.recorded j, find-update id j f c.db.records);
      }

  save_review-IsTracked :
      (now : Time) (id : Bytes) (rv : ReviewResult) → IsTracked (save_review lib now id rv c).1.db
  unfolding save_review exec
  save_review-IsTracked now id rv =
      let f = λ (row : RecordRow). record row {
        review = some (lib.marshal_review rv);
        updated_at = lib.format_time now;
      } in
      record {
        keyed = ground (arith, h.keyed);
        recorded = λ j. ground (arith, h.recorded j, find-update id j f c.db.records);
      }

  kept_record :
      (cutoff j : Bytes)
      → is_recorded
          (find j c.db.queue)
          (find j (remove_where (is_expired_record lib cutoff) c.db.records))
        ≡ true
  kept_record cutoff j =
      let p = is_expired_record lib cutoff in
      elim (Option-cases (find j c.db.records)) [
        | inl e ↦ ground (arith, h.recorded j, find-none-remove_where j p c.db.records e)
        | inr (r, e) ↦ ground (arith, h.recorded j, find-remove_where j p c.db.records r e)
      ]

  prune_older_than-IsTracked : (cutoff : Time) → IsTracked (prune_older_than lib cutoff c).1.db
  unfolding prune_older_than exec
  prune_older_than-IsTracked cutoff = record {
    keyed = ground (arith, h.keyed);
    recorded = λ j. ground (arith, h.recorded j, kept_record (lib.format_time cutoff) j);
  }

-- Every operation, whatever statements fail in it, keeps the tables tracked.
pub apply-IsTracked :
    (lib : Library) (op : Op) (c : Conn Db) → IsTracked c.db → IsTracked (apply lib op c).db
unfolding apply add_cost enqueue_outbox delete_outbox inc_outbox_attempts exec
apply-IsTracked lib (enqueue_op now ev) c h = enqueue-IsTracked lib c h now ev
apply-IsTracked lib (claim_op now) c h = claim-IsTracked lib c h now
apply-IsTracked lib (complete_op now id) c h = complete-IsTracked lib c h now id
apply-IsTracked lib (fail_op now id msg) c h = fail-IsTracked lib c h now id msg
apply-IsTracked lib reset_op c h = reset_inflight-IsTracked lib c h
apply-IsTracked lib (save_triage_op now id tr) c h = save_triage-IsTracked lib c h now id tr
apply-IsTracked lib (save_review_op now id rv) c h = save_review-IsTracked lib c h now id rv
apply-IsTracked lib (prune_op cutoff) c h = prune_older_than-IsTracked lib c h cutoff
apply-IsTracked lib (add_cost_op day usd) c h = record {
  keyed = ground (arith, h.keyed);
  recorded = λ j. ground (arith, h.recorded j);
}
apply-IsTracked lib (enqueue_outbox_op now id ch payload) c h = record {
  keyed = ground (arith, h.keyed);
  recorded = λ j. ground (arith, h.recorded j);
}
apply-IsTracked lib (delete_outbox_op id) c h = record {
  keyed = ground (arith, h.keyed);
  recorded = λ j. ground (arith, h.recorded j);
}
apply-IsTracked lib read_op c h = record {
  keyed = ground (arith, h.keyed);
  recorded = λ j. ground (arith, h.recorded j);
}
apply-IsTracked lib (inc_outbox_op id) c h = record {
  keyed = ground (arith, h.keyed);
  recorded = λ j. ground (arith, h.recorded j);
}

-- After any sequence of operations on a tracked database, whatever statements fail, the keys of the
-- queue are distinct and each queued change that is neither done nor failed has a record that is
-- neither: no retention run has deleted it.
pub apply_all-IsTracked :
    (lib : Library) (ops : List Op) (c : Conn Db)
    → IsTracked c.db
    → IsTracked (apply_all lib ops c).db
unfolding apply_all
apply_all-IsTracked lib [] c h = h
apply_all-IsTracked lib (op ∷ ops) c h =
    apply_all-IsTracked lib ops (apply lib op c) (apply-IsTracked lib op c h)
