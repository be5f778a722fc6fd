-- ===== src/Store/Lifecycle/Exclusive.antt =====
-- Which changes Claim may hand out again.
use director_orson_callan_kr.Base.{
  Bytes, ◌≡◌, Bool, true, false, Option, none, some, List, [], ◌∷◌, ◌||◌, ok, arith, str_eq,
  str_eq_iff, str_eq_refl, Outcome-elim, Outcome-ok, sym, ap, ◌∙◌,
}
use director_orson_callan_kr.Model.{ChangeEvent, failed, Time}
use director_orson_callan_kr.Sql.{Conn, exec}
use director_orson_callan_kr.Sql.Table.{find, find-upsert, find-update, find-remove}
use director_orson_callan_kr.Store.Schema.{QueueRow, Db, Library, is_pending}
use director_orson_callan_kr.Store.Queue.{
  oldest_pending, enqueue, claim, claim_blob, complete, fail,
}
use director_orson_callan_kr.Store.Records.{save_triage, save_review, prune_older_than, add_cost}
use director_orson_callan_kr.Store.Outbox.{enqueue_outbox, delete_outbox, inc_outbox_attempts}
use director_orson_callan_kr.Store.Enqueue.{Stored, enqueue_atomic}
use director_orson_callan_kr.Store.Oldest.{find-oldest_pending}
use director_orson_callan_kr.Store.Claim.{claim-claim_blob, claimed, Claimed, claim_oldest}
use director_orson_callan_kr.Store.Lifecycle.Defs.{
  Op, enqueue_op, claim_op, complete_op, fail_op, reset_op, apply, apply_all,
}
use director_orson_callan_kr.Store.Lifecycle.Kept.{is_waiting}
use director_orson_callan_kr.Store.Lifecycle.Tracked.{IsTracked, apply_all-IsTracked}

-- Whether an operation makes rows pending again that may be the change's: an Enqueue of the change,
-- or ResetInflight.
unfoldable pub reopens : Bytes → Op → Bool
reopens id (enqueue_op now ev) = str_eq ev.change_id id
reopens id reset_op = true
reopens id _ = false

unfoldable pub reopens_any : Bytes → List Op → Bool
unfolding reopens
reopens_any id [] = false
reopens_any id (op ∷ ops) = reopens id op || reopens_any id ops

-- No row of the change waits for a Claim.
abbrev IsTaken : Bytes → Db → Type 0
IsTaken id d = is_waiting (find id d.queue) ≡ false

module _ (lib : Library) (id : Bytes) (c : Conn Db) (h : IsTaken id c.db) where
  enqueue-IsTaken :
      (now : Time) (ev : ChangeEvent)
      → str_eq ev.change_id id ≡ false
      → IsTaken id (enqueue lib now ev c).1.db
  enqueue-IsTaken now ev ne =
      Outcome-elim (enqueue lib now ev c).0 (λ e. (enqueue lib now ev c).1.db ≡ c.db)
        (λ a. Stored lib now ev c a (enqueue lib now ev c).1)
        (IsTaken id (enqueue lib now ev c).1.db) (enqueue_atomic lib now ev c) (λ e k. rw k h)
        λ a k. rw (k.2, find-upsert, ne) h

  Claimed-IsTaken :
      (now : Time) (o : Option Bytes) (c' : Conn Db) → Claimed lib now c o c' → IsTaken id c'.db
  Claimed-IsTaken now none c' k = rw (k.1) h
  Claimed-IsTaken now (some blob) c' (j, row, _, _, _, _, k) =
      rw (k, find-update) (ground (arith, str_eq_iff j id))

  claim-IsTaken : (now : Time) → IsTaken id (claim lib now c).1.db
  claim-IsTaken now = rw (claim-claim_blob lib now c) (
      Outcome-elim (claim_blob lib now c).0 (λ e. (claim_blob lib now c).1.db ≡ c.db)
        (λ o. Claimed lib now c o (claim_blob lib now c).1) (IsTaken id (claim_blob lib now c).1.db)
        (claim_oldest lib now c) (λ e k. rw k h)
        (λ o k. Claimed-IsTaken now o (claim_blob lib now c).1 k))

  complete-IsTaken : (now : Time) (j : Bytes) → IsTaken id (complete lib now j c).1.db
  unfolding complete exec
  complete-IsTaken now j = ground (arith, find-remove j id c.db.queue)

  fail-IsTaken : (now : Time) (j msg : Bytes) → IsTaken id (fail lib now j msg c).1.db
  unfolding fail exec
  fail-IsTaken now j msg =
      let stamp = lib.format_time now in
      ground (
        arith,
        find-update j id (λ (row : QueueRow). record row { state = failed; updated_at = stamp })
            c.db.queue,
      )

apply-IsTaken :
    (lib : Library) (id : Bytes) (op : Op) (c : Conn Db)
    → reopens id op ≡ false
    → IsTaken id c.db
    → IsTaken id (apply lib op c).db
unfolding apply reopens save_triage save_review prune_older_than add_cost enqueue_outbox
    delete_outbox inc_outbox_attempts exec
apply-IsTaken lib id (enqueue_op now ev) c n h = enqueue-IsTaken lib id c h now ev n
apply-IsTaken lib id (claim_op now) c n h = claim-IsTaken lib id c h now
apply-IsTaken lib id (complete_op now j) c n h = complete-IsTaken lib id c h now j
apply-IsTaken lib id (fail_op now j msg) c n h = fail-IsTaken lib id c h now j msg
apply-IsTaken lib id reset_op c n h = cc
apply-IsTaken lib id _ c n h = ground arith

apply_all-IsTaken :
    (lib : Library) (id : Bytes) (ops : List Op) (c : Conn Db)
    → reopens_any id ops ≡ false
    → IsTaken id c.db
    → IsTaken id (apply_all lib ops c).db
unfolding apply_all reopens_any
apply_all-IsTaken lib id [] c n h = h
apply_all-IsTaken lib id (op ∷ ops) c n h =
    apply_all-IsTaken lib id ops (apply lib op c) (ground arith)
      (apply-IsTaken lib id op c (ground arith) h)

-- Claim, called at `now`, commits the claim of the row of the change `id`, whose JSON is `blob`.
pub record Claims (lib : Library) (now : Time) (c : Conn Db) (id blob : Bytes) : Type 0 where
  pub row : QueueRow
  pub oldest : oldest_pending c.db.queue ≡ some (id, row)
  pub committed : (claim_blob lib now c).0 ≡ ok (some blob)

module _ (lib : Library) (now : Time) (c : Conn Db) (id blob : Bytes) where
  Claims-claimed :
      (k : Claims lib now c id blob)
      → (is_pending k.row.state ≡ true)
        × ((claim lib now c).1.db ≡ claimed id (lib.format_time now) c.db)
  Claims-claimed k =
      let (j, row, picked, p, _, _, q) =
        Outcome-ok (claim_blob lib now c).0 (λ e. (claim_blob lib now c).1.db ≡ c.db)
          (λ o. Claimed lib now c o (claim_blob lib now c).1) (some blob) k.committed
          (claim_oldest lib now c) in
      let same : ◌≡◌ {A = Option (Bytes × QueueRow)} (some (j, row)) (some (id, k.row)) =
        sym picked ∙ k.oldest in
      let same_id : j ≡ id = cc in
      let same_row : row ≡ k.row = cc in
      (
        rw (← same_row) p,
        claim-claim_blob lib now c
            ∙ q
            ∙ ap (λ (i : Bytes). claimed i (lib.format_time now) c.db) same_id,
      )

  -- The change that a Claim has handed out does not wait for a second one.
  claim-IsTaken_self : Claims lib now c id blob → IsTaken id (claim lib now c).1.db
  claim-IsTaken_self k = rw ((Claims-claimed k).1, find-update) (ground (arith, str_eq_refl id))

  -- A change that Claim hands out was waiting.
  Claims-waiting :
      Claims lib now c id blob → IsTracked c.db → is_waiting (find id c.db.queue) ≡ true
  Claims-waiting k keys =
      rw (find-oldest_pending c.db.queue (id, k.row) keys.keyed k.oldest) (Claims-claimed k).0

-- No change is claimed twice: when a Claim has handed out a change, then whatever operations of any
-- number of workers follow, in whatever order and with whatever failures, as long as none of them is
-- an Enqueue of this change or a ResetInflight, a later Claim hands out another change.
pub claimed_once :
    (lib : Library) (now later : Time) (c : Conn Db) (id j blob blob' : Bytes) (ops : List Op)
    → IsTracked c.db
    → Claims lib now c id blob
    → reopens_any id ops ≡ false
    → Claims lib later (apply_all lib ops (claim lib now c).1) j blob'
    → str_eq j id ≡ false
unfolding apply_all apply
claimed_once lib now later c id j blob blob' ops keys first n second =
    let c' = apply_all lib ops (claim lib now c).1 in
    let taken : IsTaken id c'.db =
      apply_all-IsTaken lib id ops (claim lib now c).1 n
        (claim-IsTaken_self lib now c id blob first) in
    let waits : is_waiting (find j c'.db.queue) ≡ true =
      Claims-waiting lib later c' j blob' second
        (apply_all-IsTracked lib (claim_op now ∷ ops) c keys) in
    ground (arith, str_eq_iff j id)
