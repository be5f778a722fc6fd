-- ===== src/Agent/Drain.antt =====
-- How the inner loop of a worker ends.
use director_orson_callan_kr.Base.{
  ℕ, zero, suc, ◌≤◌, ◌<◌, ◌≡◌, refl, ◌⊎◌, inl, inr, Option-cases, ok, Result-cases, arith, ap, ◌∙◌,
}
use director_orson_callan_kr.Model.{Time, ChangeEvent}
use director_orson_callan_kr.Store.Queue.{claim}
use director_orson_callan_kr.Store.Lifecycle.Performs.{is_quiet, Performs-then, Performs-wider}
use director_orson_callan_kr.Store.Lifecycle.Waiting.{
  waiting, Performs-waiting, claim-waiting, claim-none-waiting,
}
use director_orson_callan_kr.Agent.Defs.{World, Agent, update_queue_depth}
use director_orson_callan_kr.Agent.Work.{Stop, queue_empty, claim_failed, process_event, drain}
use director_orson_callan_kr.Agent.Steps.{process_event-Works, update_queue_depth-Works}
use director_orson_callan_kr.Agent.Performs.{is_work, is_work-is_quiet, Works}

module _ {G : Type 0} (w : World G) where
  -- The loop ends at a Claim that fails, or at an empty queue.
  abbrev pub Ended : Agent G × Stop → Type 0
  Ended r = (r.1 ≡ claim_failed) ⊎ ((r.1 ≡ queue_empty) × (waiting (r.0).conn.db ≡ 0))

  -- One round of the loop.
  abbrev pub processed : Time → ChangeEvent → Agent G → Agent G
  processed now ev a = update_queue_depth w (process_event w now ev a)

  pub processed-Works :
      (now : Time) (ev : ChangeEvent) (a : Agent G)
      → Works w.library a.conn (processed now ev a).conn
  processed-Works now ev a =
      let b = process_event w now ev a in
      Performs-then w.library is_work a.conn b.conn (processed now ev a).conn
        (process_event-Works w now ev a) (update_queue_depth-Works w b)

  processed-waiting :
      (now : Time) (ev : ChangeEvent) (a : Agent G)
      → waiting (processed now ev a).conn.db ≤ waiting a.conn.db
  processed-waiting now ev a = Performs-waiting w.library a.conn (processed now ev a).conn (
      Performs-wider w.library is_work is_quiet is_work-is_quiet a.conn (processed now ev a).conn
        (processed-Works now ev a))

  -- The inner loop of a worker ends: if it may run more rounds than rows wait, it ends at a Claim
  -- that fails, or at an empty queue, and then no row waits. The clock may show any times, and any
  -- statement, git call or provider call may fail.
  pub drain-Ended :
      (fuel : ℕ) (clock : ℕ → Time) (a : Agent G)
      → waiting a.conn.db < fuel
      → Ended (drain w fuel clock a)
  unfolding drain
  drain-Ended zero clock a h = absurd (omega (arith, h))
  drain-Ended (suc fuel) clock a h =
      let now = clock fuel in
      let c = (claim w.library now a.conn).1 in
      elim (Result-cases (claim w.library now a.conn).0) [
        | inl (e, k) ↦ rw (k, drain) (inl refl)
        | inr (o, k) ↦ elim (Option-cases o) [
          | inl n ↦
              rw (k, n, drain) (inr (refl, claim-none-waiting w.library now a.conn (k ∙ ap ok n)))
          | inr (ev, n) ↦
              let b = record a { conn = c } in
              rw (k, n, drain)
                (drain-Ended fuel clock (processed now ev b) (
                  omega (
                    arith,
                    h,
                    processed-waiting now ev b,
                    claim-waiting w.library now a.conn ev (k ∙ ap ok n),
                  )))
        ]
      ]
