-- ===== src/Agent/Refines.antt =====
-- What the daemon does to the store, whatever events reach it.
use director_orson_callan_kr.Base.{
  ℕ, zero, suc, ◌-◌, ◌≡◌, refl, sym, subst, Bytes, Bool, true, false, List, [], ◌∷◌, Option, none,
  some, Result, ok, err, Result-cases, Option-cases, Bool-cases, inl, inr, arith,
}
use director_orson_callan_kr.Model.{Time, ChangeEvent}
use director_orson_callan_kr.Sql.{Conn}
use director_orson_callan_kr.Store.Schema.{Db}
use director_orson_callan_kr.Store.Queue.{claim, enqueue, seen_recently}
use director_orson_callan_kr.Store.Lifecycle.Defs.{enqueue_op, reset_op, claim_op, apply}
use director_orson_callan_kr.Store.Lifecycle.Performs.{
  Performs, Performs-none, Performs-one, Performs-then, Performs-seen_recently,
  Performs-pending_count,
}
use director_orson_callan_kr.Store.Lifecycle.Tracked.{IsTracked, apply_all-IsTracked}
use director_orson_callan_kr.Agent.Defs.{
  World, Agent, handle_change, handle_built, handle_event, enqueue_unless, queued, signal,
  is_paused, update_queue_depth, dedup_window,
}
use director_orson_callan_kr.Telemetry.{inc, observe, event_latency_ms, changes_processed}
use director_orson_callan_kr.Agent.Work.{drain}
use director_orson_callan_kr.Agent.Performs.{is_work, Works}
use director_orson_callan_kr.Agent.Steps.{send_outbox-Sends}
use director_orson_callan_kr.Agent.Reads.{handler-Reads}
use director_orson_callan_kr.Agent.Drain.{processed, processed-Works}
use director_orson_callan_kr.Agent.Daemon.{
  Event, started, changed, woke, ticked, requested, allows, step, run,
}

module _ {G : Type 0} (w : World G) (now : Time) (root : Bytes) where
  -- The operations of a change are allowed.
  abbrev Changes : Conn Db → Conn Db → Type 0
  Changes = Performs w.library (allows (changed now root))

  signal-conn : (a : Agent G) → (signal w a).conn ≡ a.conn
  signal-conn a = ground arith

  -- What Enqueue's success changes in the metrics.
  abbrev counted : Agent G → Agent G
  counted a = record a {
    metrics =
        observe w.floats event_latency_ms (w.elapsed_ms now)
          (inc w.floats changes_processed a.metrics);
  }

  queued-Changes : (r : Result (Unit {0})) (a : Agent G) → Changes a.conn (queued w now r a).conn
  unfolding queued update_queue_depth allows
  queued-Changes (err e) a = Performs-none w.library _ a.conn
  queued-Changes (ok _) a =
      let b = update_queue_depth w (counted a) in
      subst (Changes a.conn) (sym (signal-conn b)) (Performs-pending_count w.library _ refl a.conn)

  new-Changes :
      (ev : ChangeEvent) (a : Agent G)
      → Changes a.conn
          (let (r, c) = enqueue w.library now ev a.conn in
            queued w now r (record a { conn = c })).conn
  unfolding allows apply
  new-Changes ev a =
      let c = (enqueue w.library now ev a.conn).1 in
      Performs-then w.library _ a.conn c _
        (Performs-one w.library _ (enqueue_op now ev) a.conn c refl refl)
        (queued-Changes (enqueue w.library now ev a.conn).0 (record a { conn = c }))

  enqueue_unless-Changes :
      (ev : ChangeEvent) (r : Result Bool) (a : Agent G)
      → Changes a.conn (enqueue_unless w now ev r a).conn
  unfolding enqueue_unless
  enqueue_unless-Changes ev (ok true) a = Performs-none w.library _ a.conn
  enqueue_unless-Changes ev (ok false) a = new-Changes ev a
  enqueue_unless-Changes ev (err e) a = new-Changes ev a

  handle_built-Changes :
      (r : Result (Option ChangeEvent)) (a : Agent G) → Changes a.conn (handle_built w now r a).conn
  unfolding handle_built handle_event allows
  handle_built-Changes (err e) a = Performs-none w.library _ a.conn
  handle_built-Changes (ok none) a = Performs-none w.library _ a.conn
  handle_built-Changes (ok (some ev)) a =
      let s = seen_recently w.library now ev.content_hash dedup_window a.conn in
      Performs-then w.library _ a.conn s.1 _
        (Performs-seen_recently w.library _ refl a.conn now ev.content_hash dedup_window)
        (enqueue_unless-Changes ev s.0 (record a { conn = s.1 }))

  handle_change-Changes : (a : Agent G) → Changes a.conn (handle_change w now root a).conn
  unfolding handle_change
  handle_change-Changes a = elim (Bool-cases (is_paused w now a)) [
    | inl e ↦ rw (e, handle_change) (Performs-none w.library _ a.conn)
    | inr e ↦ rw (e, handle_change) (handle_built-Changes _ a)
  ]

module _ {G : Type 0} (w : World G) where
  pub drain-Works :
      (fuel : ℕ) (clock : ℕ → Time) (a : Agent G)
      → Works w.library a.conn (drain w fuel clock a).0.conn
  unfolding drain is_work apply
  drain-Works zero clock a = Performs-none w.library is_work a.conn
  drain-Works (suc fuel) clock a =
      let now = clock fuel in
      let c = (claim w.library now a.conn).1 in
      let claims = Performs-one w.library is_work (claim_op now) a.conn c refl refl in
      elim (Result-cases (claim w.library now a.conn).0) [
        | inl (e, k) ↦ rw (k, drain) claims
        | inr (o, k) ↦ elim (Option-cases o) [
          | inl n ↦ rw (k, n, drain) claims
          | inr (ev, n) ↦
              let b = record a { conn = c } in
              rw (k, n, drain)
                (Performs-then w.library is_work a.conn c _ claims (
                  Performs-then w.library is_work c (processed w now ev b).conn _
                    (processed-Works w now ev b) (drain-Works fuel clock (processed w now ev b))))
        ]
      ]

  -- A step of the daemon is, for the store, a sequence of operations that its event allows, any of
  -- whose statements may fail: a start resets claimed rows; a change reads and enqueues; a worker
  -- reads, claims, completes, fails, saves results and costs, and enqueues reports; a tick of the
  -- outbox sender reads, and counts the attempts of reports or deletes them; a request to
  -- the control server reads.
  pub step-Performs :
      (e : Event) (a : Agent G) → Performs w.library (allows e) a.conn (step w e a).conn
  unfolding step allows apply
  step-Performs started a = Performs-one w.library _ reset_op a.conn _ refl refl
  step-Performs (changed now root) a = handle_change-Changes w now root a
  step-Performs (woke fuel clock) a = drain-Works fuel clock (record a { wake = a.wake - 1 })
  step-Performs ticked a = send_outbox-Sends w a
  step-Performs (requested now r) a = handler-Reads w _ refl now r a

  -- Any run of the daemon, with any failures, keeps the tables tracked: the keys of the queue are
  -- distinct, and each row of the queue is finished or has a record that is not finished.
  run-IsTracked :
      (es : List Event) (a : Agent G) → IsTracked a.conn.db → IsTracked (run w es a).conn.db
  unfolding run
  run-IsTracked [] a h = h
  run-IsTracked (e ∷ es) a h =
      let (ops, _, k) = step-Performs e a in
      run-IsTracked es (step w e a) (rw k (apply_all-IsTracked w.library ops a.conn h))
