-- ===== src/Agent/Round.antt =====
-- krennic/internal/agent/agent.go: what a round of a worker leaves of its change.
use director_orson_callan_kr.Base.{
  Bytes, ◌≡◌, refl, ◌∙◌, ap, Bool, true, false, Option, none, some, Option-cases, inl, inr, List,
  [], ◌∷◌, All, Result, ok, err, Outcome, arith, str_eq, str_eq_refl,
}
use director_orson_callan_kr.Model.{Time, ChangeEvent, done, failed}
use director_orson_callan_kr.Sql.{Conn, exec}
use director_orson_callan_kr.Sql.Table.{Table, find, update, find-update, find-remove}
use director_orson_callan_kr.Store.Schema.{QueueRow, RecordRow, Db, Library}
use director_orson_callan_kr.Store.Queue.{complete, fail}
use director_orson_callan_kr.Store.Records.{save_triage, save_review, add_cost, get_record}
use director_orson_callan_kr.Store.Outbox.{enqueue_outbox}
use director_orson_callan_kr.Store.Lifecycle.Defs.{
  Op, save_triage_op, save_review_op, add_cost_op, read_op, apply, apply_all,
}
use director_orson_callan_kr.Ai.Types.{Analysis}
use director_orson_callan_kr.Ai.Gateway.{analyze}
use director_orson_callan_kr.Agent.Defs.{World, Agent}
use director_orson_callan_kr.Agent.Work.{
  gateway_at, report_record, enqueue_to, enqueue_report, finish_event, process_event,
}
use director_orson_callan_kr.Agent.Performs.{is_analysis, analyze-Analyses}
use director_orson_callan_kr.Agent.Steps.{publish_shadow-conn}

abbrev pub is_some : Option RecordRow → Bool
is_some none = false
is_some (some row) = true

-- The queue is as it was in `c`, the change has a record, and no statement will fail.
pub record IsSteady (id : Bytes) (c c' : Conn Db) : Type 0 where
  queue : c'.db.queue ≡ c.db.queue
  known : is_some (find id c'.db.records) ≡ true
  up : c'.faults ≡ []

is_some-update :
    (j id : Bytes) (f : RecordRow → RecordRow) (t : Table RecordRow)
    → is_some (find id t) ≡ true
    → is_some (find id (update j f t)) ≡ true
is_some-update j id f t h = ground (arith, h, find-update j id f t)

module _ (lib : Library) (id : Bytes) where
  apply-IsSteady :
      (op : Op) (c c' : Conn Db)
      → is_analysis op ≡ true
      → IsSteady id c c'
      → IsSteady id c (apply lib op c')
  unfolding apply is_analysis save_triage save_review add_cost exec
  apply-IsSteady (save_triage_op now j tr) c c' h s = record {
    queue = ground (arith, s.queue, s.up);
    known = rw s.up (is_some-update j id _ c'.db.records s.known);
    up = ground (arith, s.up);
  }
  apply-IsSteady (save_review_op now j rv) c c' h s = record {
    queue = ground (arith, s.queue, s.up);
    known = rw s.up (is_some-update j id _ c'.db.records s.known);
    up = ground (arith, s.up);
  }
  apply-IsSteady (add_cost_op day usd) c c' h s = record {
    queue = ground (arith, s.queue, s.up);
    known = ground (arith, s.known, s.up);
    up = ground (arith, s.up);
  }
  apply-IsSteady read_op c c' h s = record {
    queue = ground (arith, s.queue, s.up);
    known = ground (arith, s.known, s.up);
    up = ground (arith, s.up);
  }
  apply-IsSteady _ c c' h s = absurd (cc h)

  apply_all-IsSteady :
      (ops : List Op) (c c' : Conn Db)
      → All (λ op. is_analysis op ≡ true) ops
      → IsSteady id c c'
      → IsSteady id c (apply_all lib ops c')
  unfolding apply_all
  apply_all-IsSteady [] c c' h s = s
  apply_all-IsSteady (op ∷ ops) c c' h s =
      apply_all-IsSteady ops c (apply lib op c') h.1 (apply-IsSteady op c c' h.0 s)

module _ {G : Type 0} (w : World G) (now : Time) (id : Bytes) where
  report-keeps :
      (c : Conn Db)
      → ((enqueue_report w now id c).db.queue ≡ c.db.queue)
        × ((enqueue_report w now id c).db.records ≡ c.db.records)
  unfolding enqueue_report enqueue_to report_record get_record enqueue_outbox exec
  report-keeps c = elim (Option-cases w.hub) [
    | inl e ↦ rw (e, enqueue_report) (refl, refl)
    | inr (send, e) ↦ rw (e, enqueue_report) (ground arith, ground arith)
  ]

-- What the tables say of a change whose row was `q`: its analysis has failed with this error, or it
-- is done and has left the queue.
abbrev pub IsFailed : Bytes → Bytes → Db → Type 0
IsFailed id e d =
    (q : QueueRow) × (rec : RecordRow) × (find id d.queue ≡ some q)
    × (find id d.records ≡ some rec)
    × (q.state ≡ failed)
    × (rec.status ≡ failed)
    × (rec.error ≡ some e)

abbrev pub IsDone : Bytes → Db → Type 0
IsDone id d =
    (rec : RecordRow) × (find id d.queue ≡ none)
    × (find id d.records ≡ some rec)
    × (rec.status ≡ done)

some_of : (o : Option RecordRow) → is_some o ≡ true → (row : RecordRow) × (o ≡ some row)
some_of none h = cc
some_of (some row) h = (row, refl)

module _ (lib : Library) (now : Time) (id : Bytes) (c : Conn Db) (up : c.faults ≡ [])
    (known : is_some (find id c.db.records) ≡ true) where
  complete-IsDone : IsDone id (complete lib now id c).1.db
  unfolding complete exec
  complete-IsDone =
      let (row, e) = some_of (find id c.db.records) known in
      rw (up, find-remove, find-update, e, str_eq_refl id) (_, refl, refl, refl)

  fail-IsFailed :
      (e : Bytes) (q : QueueRow)
      → find id c.db.queue ≡ some q
      → IsFailed id e (fail lib now id e c).1.db
  unfolding fail exec
  fail-IsFailed e q k =
      let (row, r) = some_of (find id c.db.records) known in
      rw (up, find-update, find-update, k, r, str_eq_refl id) (_, _, refl, refl, refl, refl, refl)

  complete-others :
      (k : Bytes)
      → str_eq id k ≡ false
      → find k (complete lib now id c).1.db.queue ≡ find k c.db.queue
  unfolding complete exec
  complete-others k n = rw (up, find-remove, n) refl

  fail-others :
      (e k : Bytes)
      → str_eq id k ≡ false
      → find k (fail lib now id e c).1.db.queue ≡ find k c.db.queue
  unfolding fail exec
  fail-others e k n = rw (up, find-update) (ground (arith, n))

module _ {G : Type 0} (w : World G) (now : Time) (ev : ChangeEvent) where
  -- What the analysis of the change answers, over the store as it is.
  abbrev pub analyzed : Conn Db → Result Analysis
  analyzed c = (analyze w.environment (gateway_at w now) ev (record { calls = []; store = c })).0

  -- The change's rows say how the analysis ended, and the queue's other rows are as they were.
  abbrev pub Ended : Result Analysis → Conn Db → Conn Db → Type 0
  Ended r c c' =
      Outcome r (λ e. IsFailed ev.change_id e c'.db) (λ _. IsDone ev.change_id c'.db)
      × ((k : Bytes) → str_eq ev.change_id k ≡ false → find k c'.db.queue ≡ find k c.db.queue)

  finish-Ended :
      (r : Result Analysis) (b : Agent G) (c : Conn Db) (q : QueueRow)
      → IsSteady ev.change_id c b.conn
      → find ev.change_id c.db.queue ≡ some q
      → Ended r c (finish_event w now ev r b).conn
  unfolding finish_event
  finish-Ended (err e) b c q s k = (
    fail-IsFailed w.library now ev.change_id b.conn s.up s.known e q
        (ap (find ev.change_id) s.queue ∙ k),
    λ j n. fail-others w.library now ev.change_id b.conn s.up s.known e j n ∙ ap (find j) s.queue,
  )
  finish-Ended (ok res) b c q s k =
      let c' = (complete w.library now ev.change_id b.conn).1 in
      let (queue, records) = report-keeps w now ev.change_id c' in
      (
        rw (queue, records) (complete-IsDone w.library now ev.change_id b.conn s.up s.known),
        λ j n. rw queue (
            complete-others w.library now ev.change_id b.conn s.up s.known j n
            ∙ ap (find j) s.queue),
      )

  analyzed-IsSteady :
      (c : Conn Db)
      → c.faults ≡ []
      → is_some (find ev.change_id c.db.records) ≡ true
      → IsSteady ev.change_id c
          (analyze w.environment (gateway_at w now) ev (record { calls = []; store = c })).1.store
  analyzed-IsSteady c up known =
      let (ops, h, e) =
        analyze-Analyses w.library now w.environment w.gateway ev
          (record { calls = []; store = c }) in
      rw e (
        apply_all-IsSteady w.library ev.change_id ops c c h
          (record { queue = refl; known = known; up = up }))

  -- A round of a worker ends the change that it has claimed: when no statement fails, and the change
  -- has a row in the queue and one in the records, then behind processEvent the change is done and
  -- has left the queue, if its analysis succeeds, and if it does not, both rows say that it has
  -- failed, and the record has the analysis' error; whatever git and the providers answer, and
  -- whether a hub is configured or not. The queue's other rows are as they were.
  pub process_event-Ended :
      (a : Agent G) (q : QueueRow)
      → a.conn.faults ≡ []
      → find ev.change_id a.conn.db.queue ≡ some q
      → is_some (find ev.change_id a.conn.db.records) ≡ true
      → Ended (analyzed a.conn) a.conn (process_event w now ev a).conn
  unfolding process_event
  process_event-Ended a q up row known =
      rw (publish_shadow-conn w ev a)
        (finish-Ended (analyzed a.conn) _ a.conn q (analyzed-IsSteady a.conn up known) row)
