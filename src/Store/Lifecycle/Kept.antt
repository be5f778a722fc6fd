-- ===== src/Store/Lifecycle/Kept.antt =====
-- What sequences of operations keep of one queued change.
use director_orson_callan_kr.Base.{
  Bytes, ◌≡◌, refl, Bool, true, false, not, Option, none, some, List, [], ◌∷◌, ok, arith, str_eq,
  str_eq_iff, str_eq_refl, Outcome-elim, Outcome-ok,
}
use director_orson_callan_kr.Model.{ChangeEvent, pending, failed, Time}
use director_orson_callan_kr.Sql.{Conn, exec}
use director_orson_callan_kr.Sql.Table.{
  find, find-upsert, find-update, find-remove, find-update_where,
}
use director_orson_callan_kr.Store.Schema.{
  QueueRow, Db, Library, is_finished, is_pending, is_inflight,
}
use director_orson_callan_kr.Store.Queue.{
  enqueue, claim, claim_blob, complete, fail, reset_inflight,
}
use director_orson_callan_kr.Store.Records.{save_triage, save_review, prune_older_than, add_cost}
use director_orson_callan_kr.Store.Outbox.{enqueue_outbox, delete_outbox, inc_outbox_attempts}
use director_orson_callan_kr.Store.Enqueue.{Stored, enqueue_atomic}
use director_orson_callan_kr.Store.Claim.{claim-claim_blob, Claimed, claim_oldest}
use director_orson_callan_kr.Store.Lifecycle.Defs.{
  Op, enqueue_op, claim_op, complete_op, fail_op, reset_op, apply, apply_all, finishes,
  finishes_any,
}

-- The row is there, and neither done nor failed.
abbrev pub is_live : Option QueueRow → Bool
is_live none = false
is_live (some q) = not (is_finished q.state)

abbrev pub IsQueued : Bytes → Db → Type 0
IsQueued id d = is_live (find id d.queue) ≡ true

module _ (lib : Library) (id : Bytes) (c : Conn Db) (h : IsQueued id c.db) where
  enqueue-IsQueued : (now : Time) (ev : ChangeEvent) → IsQueued id (enqueue lib now ev c).1.db
  enqueue-IsQueued now ev =
      Outcome-elim (enqueue lib now ev c).0 (λ e. (enqueue lib now ev c).1.db ≡ c.db)
        (λ a. Stored lib now ev c a (enqueue lib now ev c).1)
        (IsQueued id (enqueue lib now ev c).1.db) (enqueue_atomic lib now ev c) (λ e k. rw k h)
        λ a k. rw (k.2, find-upsert) (ground (arith, str_eq_iff ev.change_id id))

  Claimed-IsQueued :
      (now : Time) (o : Option Bytes) (c' : Conn Db) → Claimed lib now c o c' → IsQueued id c'.db
  Claimed-IsQueued now none c' k = rw (k.1) h
  Claimed-IsQueued now (some blob) c' (j, row, _, _, _, _, k) =
      rw (k, find-update) (ground (arith, str_eq_iff j id))

  claim-IsQueued : (now : Time) → IsQueued id (claim lib now c).1.db
  claim-IsQueued now = rw (claim-claim_blob lib now c) (
      Outcome-elim (claim_blob lib now c).0 (λ e. (claim_blob lib now c).1.db ≡ c.db)
        (λ o. Claimed lib now c o (claim_blob lib now c).1)
        (IsQueued id (claim_blob lib now c).1.db) (claim_oldest lib now c) (λ e k. rw k h)
        (λ o k. Claimed-IsQueued now o (claim_blob lib now c).1 k))

  complete-IsQueued :
      (now : Time) (j : Bytes) → str_eq j id ≡ false → IsQueued id (complete lib now j c).1.db
  unfolding complete exec
  complete-IsQueued now j ne = ground (arith, find-remove j id c.db.queue)

  fail-IsQueued :
      (now : Time) (j msg : Bytes) → str_eq j id ≡ false → IsQueued id (fail lib now j msg c).1.db
  unfolding fail exec
  fail-IsQueued now j msg ne =
      let stamp = lib.format_time now in
      ground (
        arith,
        find-update j id (λ (row : QueueRow). record row { state = failed; updated_at = stamp })
            c.db.queue,
      )

  reset_inflight-IsQueued : IsQueued id (reset_inflight c).1.db
  unfolding reset_inflight exec
  reset_inflight-IsQueued = ground (
    arith,
    find-update_where id (λ (row : QueueRow). is_inflight row.state)
        (λ (row : QueueRow). record row { state = pending }) c.db.queue,
  )

-- Every operation but a Complete or a Fail of the change keeps it queued.
pub apply-IsQueued :
    (lib : Library) (id : Bytes) (op : Op) (c : Conn Db)
    → finishes id op ≡ false
    → IsQueued id c.db
    → IsQueued id (apply lib op c).db
unfolding apply finishes save_triage save_review prune_older_than add_cost enqueue_outbox
    delete_outbox inc_outbox_attempts exec
apply-IsQueued lib id (enqueue_op now ev) c n h = enqueue-IsQueued lib id c h now ev
apply-IsQueued lib id (claim_op now) c n h = claim-IsQueued lib id c h now
apply-IsQueued lib id (complete_op now j) c n h = complete-IsQueued lib id c h now j n
apply-IsQueued lib id (fail_op now j msg) c n h = fail-IsQueued lib id c h now j msg n
apply-IsQueued lib id reset_op c n h = reset_inflight-IsQueued lib id c h
apply-IsQueued lib id _ c n h = ground arith

pub apply_all-IsQueued :
    (lib : Library) (id : Bytes) (ops : List Op) (c : Conn Db)
    → finishes_any id ops ≡ false
    → IsQueued id c.db
    → IsQueued id (apply_all lib ops c).db
unfolding apply_all finishes_any
apply_all-IsQueued lib id [] c n h = h
apply_all-IsQueued lib id (op ∷ ops) c n h =
    apply_all-IsQueued lib id ops (apply lib op c) (ground arith)
      (apply-IsQueued lib id op c (ground arith) h)

-- The row waits for a Claim.
abbrev pub is_waiting : Option QueueRow → Bool
is_waiting none = false
is_waiting (some q) = is_pending q.state

reset-is_waiting :
    (id : Bytes) (c : Conn Db)
    → c.faults ≡ []
    → IsQueued id c.db
    → is_waiting (find id (reset_inflight c).1.db.queue) ≡ true
unfolding reset_inflight exec
reset-is_waiting id c up h = ground (
  arith,
  find-update_where id (λ (row : QueueRow). is_inflight row.state)
      (λ (row : QueueRow). record row { state = pending }) c.db.queue,
)

-- The connection of a new process on the database that another one left.
abbrev pub restart : Conn Db → Conn Db
restart c = record { db = c.db; faults = [] }

-- No work is lost: once Enqueue has succeeded, and whatever operations follow, with whatever
-- failures, that hold no Complete and no Fail of the change, the change waits for a Claim after a
-- restart has run ResetInflight.
pub no_work_lost :
    (lib : Library) (now : Time) (ev : ChangeEvent) (ops : List Op) (c : Conn Db)
    → (enqueue lib now ev c).0 ≡ ok tt
    → finishes_any ev.change_id ops ≡ false
    → is_waiting (
        find ev.change_id
          (reset_inflight (restart (apply_all lib ops (enqueue lib now ev c).1))).1.db.queue)
      ≡ true
no_work_lost lib now ev ops c succeeded n =
    let (blob, encodes, k) =
      Outcome-ok (enqueue lib now ev c).0 (λ e. (enqueue lib now ev c).1.db ≡ c.db)
        (λ a. Stored lib now ev c a (enqueue lib now ev c).1) tt succeeded
        (enqueue_atomic lib now ev c) in
    let queued : IsQueued ev.change_id (enqueue lib now ev c).1.db =
      rw (k, find-upsert, str_eq_refl) (ground arith) in
    reset-is_waiting ev.change_id (restart (apply_all lib ops (enqueue lib now ev c).1)) refl
      (apply_all-IsQueued lib ev.change_id ops (enqueue lib now ev c).1 n queued)
