-- ===== src/Store/Lifecycle/Defs.antt =====
-- Sequences of the store's operations, with statements that may fail at any point: a crash is a
-- sequence that ends, or a transaction that does not commit. `read_op` is any statement that only
-- reads.

use director_orson_callan_kr.Base.{Bytes, Bool, false, List, [], ◌∷◌, ◌||◌, str_eq}
use director_orson_callan_kr.Model.{ChangeEvent, TriageResult, ReviewResult, Time, Float64}
use director_orson_callan_kr.Sql.{Conn, exec}
use director_orson_callan_kr.Store.Schema.{Db, Library}
use director_orson_callan_kr.Store.Queue.{enqueue, claim, complete, fail, reset_inflight}
use director_orson_callan_kr.Store.Records.{save_triage, save_review, prune_older_than, add_cost}
use director_orson_callan_kr.Store.Outbox.{enqueue_outbox, delete_outbox, inc_outbox_attempts}

pub data Op : Type 0 where
  enqueue_op : Time → ChangeEvent → Op
  claim_op : Time → Op
  complete_op : Time → Bytes → Op
  fail_op : Time → Bytes → Bytes → Op
  reset_op : Op
  save_triage_op : Time → Bytes → TriageResult → Op
  save_review_op : Time → Bytes → ReviewResult → Op
  add_cost_op : Bytes → Float64 → Op
  prune_op : Time → Op
  enqueue_outbox_op : Time → Bytes → Bytes → Bytes → Op
  delete_outbox_op : Bytes → Op
  inc_outbox_op : Bytes → Op
  read_op : Op

module _ (lib : Library) where
  -- The connection behind one operation, whether it returns a value or an error.
  unfoldable pub apply : Op → Conn Db → Conn Db
  apply (enqueue_op now ev) c = (enqueue lib now ev c).1
  apply (claim_op now) c = (claim lib now c).1
  apply (complete_op now id) c = (complete lib now id c).1
  apply (fail_op now id msg) c = (fail lib now id msg c).1
  apply reset_op c = (reset_inflight c).1
  apply (save_triage_op now id tr) c = (save_triage lib now id tr c).1
  apply (save_review_op now id rv) c = (save_review lib now id rv c).1
  apply (add_cost_op day usd) c = (add_cost lib day usd c).1
  apply (prune_op cutoff) c = (prune_older_than lib cutoff c).1
  apply (enqueue_outbox_op now id ch payload) c = (enqueue_outbox lib now id ch payload c).1
  apply (delete_outbox_op id) c = (delete_outbox id c).1
  apply (inc_outbox_op id) c = (inc_outbox_attempts id c).1
  apply read_op c = (exec (λ d. (tt {0}, d)) c).1

  unfoldable pub apply_all : List Op → Conn Db → Conn Db
  unfolding apply
  apply_all [] c = c
  apply_all (op ∷ ops) c = apply_all ops (apply op c)

-- Whether an operation is a Complete or a Fail of one change.
unfoldable pub finishes : Bytes → Op → Bool
finishes id (complete_op now j) = str_eq j id
finishes id (fail_op now j msg) = str_eq j id
finishes id _ = false

unfoldable pub finishes_any : Bytes → List Op → Bool
unfolding finishes
finishes_any id [] = false
finishes_any id (op ∷ ops) = finishes id op || finishes_any id ops
