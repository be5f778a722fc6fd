-- ===== src/Agent/Awaits.antt =====
-- What keeps a report in the outbox.
use director_orson_callan_kr.Base.{
  ◌+◌, ◌≡◌, Bytes, Bool, true, false, All, List, [], ◌∷◌, Option, none, some, arith, Outcome-elim,
}
use director_orson_callan_kr.Model.{Time, ChangeEvent}
use director_orson_callan_kr.Sql.{Conn, exec}
use director_orson_callan_kr.Sql.Table.{find, find-upsert, find-update}
use director_orson_callan_kr.Store.Schema.{OutboxRow, Db, Library}
use director_orson_callan_kr.Store.Queue.{
  enqueue, claim, claim_blob, complete, fail, reset_inflight,
}
use director_orson_callan_kr.Store.Records.{save_triage, save_review, prune_older_than, add_cost}
use director_orson_callan_kr.Store.Outbox.{enqueue_outbox, inc_outbox_attempts}
use director_orson_callan_kr.Store.Enqueue.{Stored, enqueue_atomic}
use director_orson_callan_kr.Store.Claim.{claim-claim_blob, Claimed, claim_oldest}
use director_orson_callan_kr.Store.Lifecycle.Defs.{
  Op, enqueue_op, claim_op, enqueue_outbox_op, delete_outbox_op, inc_outbox_op, apply, apply_all,
}

-- A report awaits delivery.
abbrev pub awaits : Bytes → Db → Bool
awaits id d = elim (find id d.outbox) [ none ↦ false | some row ↦ true ]

unfoldable pub deletes : Op → Bool
deletes (delete_outbox_op id) = true
deletes _ = false

module _ (lib : Library) (id : Bytes) (c : Conn Db) (h : awaits id c.db ≡ true) where
  enqueue-awaits : (now : Time) (ev : ChangeEvent) → awaits id (enqueue lib now ev c).1.db ≡ true
  enqueue-awaits now ev =
      Outcome-elim (enqueue lib now ev c).0 (λ e. (enqueue lib now ev c).1.db ≡ c.db)
        (λ a. Stored lib now ev c a (enqueue lib now ev c).1)
        (awaits id (enqueue lib now ev c).1.db ≡ true) (enqueue_atomic lib now ev c) (λ e k. rw k h)
        λ a k. rw (k.2) h

  Claimed-awaits :
      (now : Time) (o : Option Bytes) (c' : Conn Db)
      → Claimed lib now c o c'
      → awaits id c'.db ≡ true
  Claimed-awaits now none c' k = rw (k.1) h
  Claimed-awaits now (some blob) c' (i, row, picked, p, _, _, k) = rw k h

  claim-awaits : (now : Time) → awaits id (claim lib now c).1.db ≡ true
  claim-awaits now = rw (claim-claim_blob lib now c) (
      Outcome-elim (claim_blob lib now c).0 (λ e. (claim_blob lib now c).1.db ≡ c.db)
        (λ o. Claimed lib now c o (claim_blob lib now c).1)
        (awaits id (claim_blob lib now c).1.db ≡ true) (claim_oldest lib now c) (λ e k. rw k h)
        (λ o k. Claimed-awaits now o (claim_blob lib now c).1 k))

-- Only DeleteOutbox takes a report away.
apply-awaits :
    (lib : Library) (op : Op) (id : Bytes) (c : Conn Db)
    → deletes op ≡ false
    → awaits id c.db ≡ true
    → awaits id (apply lib op c).db ≡ true
unfolding apply deletes complete fail reset_inflight save_triage save_review prune_older_than
    add_cost enqueue_outbox inc_outbox_attempts exec
apply-awaits lib (delete_outbox_op j) id c n h = cc
apply-awaits lib (enqueue_op now ev) id c n h = enqueue-awaits lib id c h now ev
apply-awaits lib (claim_op now) id c n h = claim-awaits lib id c h now
apply-awaits lib (enqueue_outbox_op now j ch payload) id c n h =
    let row : OutboxRow = record {
      change_id = ch;
      payload = payload;
      attempts = 0;
      created_at = lib.format_time now;
    } in
    ground (
      arith,
      h,
      find-upsert j id row (λ (r : OutboxRow). record r { payload = payload }) c.db.outbox,
    )
apply-awaits lib (inc_outbox_op j) id c n h = ground (
  arith,
  h,
  find-update j id (λ (r : OutboxRow). record r { attempts = r.attempts + 1 }) c.db.outbox,
)
apply-awaits lib _ id c n h = ground (arith, h)

pub apply_all-awaits :
    (lib : Library) (ops : List Op) (id : Bytes) (c : Conn Db)
    → All (λ op. deletes op ≡ false) ops
    → awaits id c.db ≡ true
    → awaits id (apply_all lib ops c).db ≡ true
unfolding apply_all
apply_all-awaits lib [] id c n h = h
apply_all-awaits lib (op ∷ ops) id c n h =
    apply_all-awaits lib ops id (apply lib op c) n.1 (apply-awaits lib op id c n.0 h)
