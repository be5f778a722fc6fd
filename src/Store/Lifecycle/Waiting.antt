-- ===== src/Store/Lifecycle/Waiting.antt =====
-- How many rows wait, and what keeps their number down.
use director_orson_callan_kr.Base.{
  ℕ, ◌≤◌, ◌<◌, Bytes, ◌≡◌, refl, true, false, Option, none, some, List, [], ◌∷◌, ok, arith, All,
  str_eq_refl, inl, inr, Outcome-elim, Outcome-ok, Result-cases, Option-cases,
}
use director_orson_callan_kr.Model.{ChangeEvent, failed, Time}
use director_orson_callan_kr.Sql.{Conn, exec}
use director_orson_callan_kr.Sql.Table.{Table, update, remove, count_where}
use director_orson_callan_kr.Store.Schema.{QueueRow, Db, Library, is_pending}
use director_orson_callan_kr.Store.Queue.{
  claim, claim_blob, complete, fail, oldest_pending, older, mark_claimed,
}
use director_orson_callan_kr.Store.Records.{save_triage, save_review, prune_older_than, add_cost}
use director_orson_callan_kr.Store.Outbox.{enqueue_outbox, delete_outbox, inc_outbox_attempts}
use director_orson_callan_kr.Store.Oldest.{NonePending}
use director_orson_callan_kr.Store.Claim.{claim-claim_blob, Claimed, claim_oldest}
use director_orson_callan_kr.Store.Lifecycle.Defs.{
  Op, enqueue_op, claim_op, complete_op, fail_op, reset_op, apply, apply_all,
}
use director_orson_callan_kr.Store.Lifecycle.Performs.{is_quiet, Performs}

-- The number of rows that wait for a Claim.
abbrev pub waiting : Db → ℕ
waiting d = count_where (λ row. is_pending row.state) d.queue

remove-waiting :
    (id : Bytes) (t : Table QueueRow)
    → count_where (λ (row : QueueRow). is_pending row.state) (remove id t)
      ≤ count_where (λ (row : QueueRow). is_pending row.state) t
unfolding remove count_where
remove-waiting id [] = omega arith
remove-waiting id ((j, row) ∷ t) = ground (arith, remove-waiting id t)

update-waiting :
    (id : Bytes) (f : QueueRow → QueueRow) (t : Table QueueRow)
    → ((row : QueueRow) → is_pending (f row).state ≡ false)
    → count_where (λ (row : QueueRow). is_pending row.state) (update id f t)
      ≤ count_where (λ (row : QueueRow). is_pending row.state) t
unfolding update count_where
update-waiting id f [] h = omega arith
update-waiting id f ((j, row) ∷ t) h = ground (arith, update-waiting id f t h, h row)

-- A picked row is one that waits.
claimed-waiting :
    (now : Bytes) (t : Table QueueRow) (id : Bytes) (row : QueueRow)
    → oldest_pending t ≡ some (id, row)
    → count_where (λ (row : QueueRow). is_pending row.state) (update id (mark_claimed now) t)
      < count_where (λ (row : QueueRow). is_pending row.state) t
unfolding oldest_pending older update count_where
claimed-waiting now [] id row h = cc
claimed-waiting now ((j, r) ∷ t) id row h = ground (
  arith,
  claimed-waiting now t id row,
  update-waiting id (mark_claimed now) t (λ (q : QueueRow). refl),
  str_eq_refl j,
)

module _ (lib : Library) (c : Conn Db) where
  Claimed-waiting :
      (now : Time) (blob : Bytes) (c' : Conn Db)
      → Claimed lib now c (some blob) c'
      → waiting c'.db < waiting c.db
  Claimed-waiting now blob c' (id, row, picked, p, _, _, k) =
      rw k (claimed-waiting (lib.format_time now) c.db.queue id row picked)

  complete-waiting : (now : Time) (id : Bytes) → waiting (complete lib now id c).1.db ≤ waiting c.db
  unfolding complete exec
  complete-waiting now id = ground (arith, remove-waiting id c.db.queue)

  fail-waiting : (now : Time) (id msg : Bytes) → waiting (fail lib now id msg c).1.db ≤ waiting c.db
  unfolding fail exec
  fail-waiting now id msg =
      let stamp = lib.format_time now in
      let f = λ (row : QueueRow). record row { state = failed; updated_at = stamp } in
      ground (arith, update-waiting id f c.db.queue (λ (q : QueueRow). refl))

  claim_blob-waiting : (now : Time) → waiting (claim_blob lib now c).1.db ≤ waiting c.db
  claim_blob-waiting now =
      Outcome-elim (claim_blob lib now c).0 (λ e. (claim_blob lib now c).1.db ≡ c.db)
        (λ o. Claimed lib now c o (claim_blob lib now c).1)
        (waiting (claim_blob lib now c).1.db ≤ waiting c.db) (claim_oldest lib now c)
        (λ e k. rw k (omega arith)) (λ o k. at_most o (claim_blob lib now c).1 k)
    where
      at_most :
          (o : Option Bytes) (c' : Conn Db) → Claimed lib now c o c' → waiting c'.db ≤ waiting c.db
      at_most none c' k = rw (k.1) (omega arith)
      at_most (some blob) c' k = omega (arith, Claimed-waiting now blob c' k)

-- No operation but Enqueue and ResetInflight makes a row wait.
apply-waiting :
    (lib : Library) (op : Op) (c : Conn Db)
    → is_quiet op ≡ true
    → waiting (apply lib op c).db ≤ waiting c.db
unfolding apply is_quiet save_triage save_review prune_older_than add_cost enqueue_outbox
    delete_outbox inc_outbox_attempts exec
apply-waiting lib (enqueue_op now ev) c h = cc
apply-waiting lib reset_op c h = cc
apply-waiting lib (claim_op now) c h =
    rw (claim-claim_blob lib now c) (claim_blob-waiting lib c now)
apply-waiting lib (complete_op now id) c h = complete-waiting lib c now id
apply-waiting lib (fail_op now id msg) c h = fail-waiting lib c now id msg
apply-waiting lib _ c h = ground arith

apply_all-waiting :
    (lib : Library) (ops : List Op) (c : Conn Db)
    → All (λ op. is_quiet op ≡ true) ops
    → waiting (apply_all lib ops c).db ≤ waiting c.db
unfolding apply_all
apply_all-waiting lib [] c h = omega arith
apply_all-waiting lib (op ∷ ops) c h =
    omega (arith, apply-waiting lib op c h.0, apply_all-waiting lib ops (apply lib op c) h.1)

pub Performs-waiting :
    (lib : Library) (c c' : Conn Db) → Performs lib is_quiet c c' → waiting c'.db ≤ waiting c.db
Performs-waiting lib c c' (ops, h, e) = rw e (apply_all-waiting lib ops c h)

module _ (lib : Library) (now : Time) (c : Conn Db) where
  -- The transaction behind what Claim returns.
  claim-some :
      (ev : ChangeEvent)
      → (claim lib now c).0 ≡ ok (some ev)
      → (blob : Bytes) × ((claim_blob lib now c).0 ≡ ok (some blob))
  unfolding claim
  claim-some ev h = elim (Result-cases (claim_blob lib now c).0) [
    | inl (e, k) ↦ absurd (ground (arith, h, k))
    | inr (o, k) ↦ elim (Option-cases o) [
      | inl n ↦ absurd (ground (arith, h, k, n))
      | inr (blob, n) ↦ (blob, ground (arith, k, n))
    ]
  ]

  claim-none : (claim lib now c).0 ≡ ok none → (claim_blob lib now c).0 ≡ ok none
  unfolding claim
  claim-none h = elim (Result-cases (claim_blob lib now c).0) [
    | inl (e, k) ↦ absurd (ground (arith, h, k))
    | inr (o, k) ↦ elim (Option-cases o) [
      | inl n ↦ ground (arith, k, n)
      | inr (blob, n) ↦ elim (Result-cases (lib.unmarshal_event blob)) [
        | inl (e, m) ↦ absurd (ground (arith, h, k, n, m))
        | inr (ev, m) ↦ absurd (ground (arith, h, k, n, m))
      ]
    ]
  ]

  claim_blob-Claimed :
      (o : Option Bytes)
      → (claim_blob lib now c).0 ≡ ok o
      → Claimed lib now c o (claim_blob lib now c).1
  claim_blob-Claimed o h =
      Outcome-ok (claim_blob lib now c).0 (λ e. (claim_blob lib now c).1.db ≡ c.db)
        (λ o. Claimed lib now c o (claim_blob lib now c).1) o h (claim_oldest lib now c)

  -- A Claim that returns an event takes a row that waited.
  pub claim-waiting :
      (ev : ChangeEvent)
      → (claim lib now c).0 ≡ ok (some ev)
      → waiting (claim lib now c).1.db < waiting c.db
  claim-waiting ev h =
      let (blob, k) = claim-some ev h in
      rw (claim-claim_blob lib now c)
        (Claimed-waiting lib c now blob (claim_blob lib now c).1 (claim_blob-Claimed (some blob) k))

  none-waiting :
      (t : Table QueueRow)
      → NonePending t
      → count_where (λ (row : QueueRow). is_pending row.state) t ≡ 0
  unfolding count_where
  none-waiting [] h = refl
  none-waiting ((j, row) ∷ t) h = ground (arith, h.0, none-waiting t h.1)

  -- A Claim that finds nothing leaves nothing that waits.
  pub claim-none-waiting : (claim lib now c).0 ≡ ok none → waiting (claim lib now c).1.db ≡ 0
  claim-none-waiting h =
      let k = claim_blob-Claimed none (claim-none h) in
      rw (claim-claim_blob lib now c, k.1) (none-waiting c.db.queue k.0)
