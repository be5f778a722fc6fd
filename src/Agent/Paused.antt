-- ===== src/Agent/Paused.antt =====
-- What a paused daemon does not do.
use director_orson_callan_kr.Base.{
  ℕ, zero, suc, ◌-◌, ◌≤◌, ◌≡◌, refl, sym, subst, ap, ◌∙◌, Bytes, Bool, true, false, not, ◌||◌, All,
  List, [], ◌∷◌, length, Option, none, Option-cases, Bool-cases, inl, inr, Result, ok, err,
  Result-cases, str_eq, utf8, ltb, arith,
}
use director_orson_callan_kr.Model.{Time, ChangeEvent}
use director_orson_callan_kr.Store.Queue.{claim}
use director_orson_callan_kr.Store.Outbox.{OutboxItem, list_outbox}
use director_orson_callan_kr.Store.Lifecycle.Defs.{Op, delete_outbox_op, inc_outbox_op, read_op}
use director_orson_callan_kr.Store.Lifecycle.Performs.{is_quiet, Performs-wider}
use director_orson_callan_kr.Store.Lifecycle.Waiting.{waiting, Performs-waiting}
use director_orson_callan_kr.Ai.Types.{Analysis}
use director_orson_callan_kr.Hub.Client.{Request}
use director_orson_callan_kr.Agent.Defs.{World, Agent, handle_change, update_queue_depth}
use director_orson_callan_kr.Agent.Work.{
  publish_shadow, push_snapshot, pushed, finish_event, process_event, drain,
}
use director_orson_callan_kr.Agent.Outbox.{
  delivered_item, send_items, show_outbox, send_listed, tick, send_outbox,
}
use director_orson_callan_kr.Agent.Http.{
  handle_metrics, handle_status, handle_recent, handle_record, handle_page, handler,
}
use director_orson_callan_kr.Agent.Performs.{is_work, is_work-is_quiet}
use director_orson_callan_kr.Agent.Steps.{is_delivery, send_outbox-Sends}
use director_orson_callan_kr.Agent.Reads.{handler-Reads}
use director_orson_callan_kr.Agent.Daemon.{
  Event, started, changed, woke, ticked, requested, step, run,
}
use director_orson_callan_kr.Agent.Refines.{drain-Works}

-- An event in a pause that lasts until a time: the process goes on, no request sets or clears the
-- pause, and a change comes before its end.
abbrev pub is_within : Time → Event → Bool
is_within until started = false
is_within until (changed now root) = ltb now until
is_within until (requested now r) =
    not (str_eq r.target (utf8 "/api/pause") || str_eq r.target (utf8 "/api/resume"))
is_within until _ = true

is_delivery-is_quiet : (op : Op) → is_delivery op ≡ true → is_quiet op ≡ true
unfolding is_delivery is_quiet
is_delivery-is_quiet (delete_outbox_op id) h = refl
is_delivery-is_quiet (inc_outbox_op id) h = refl
is_delivery-is_quiet read_op h = refl
is_delivery-is_quiet _ h = absurd (cc h)

module _ {G : Type 0} (w : World G) where
  push_snapshot-pause :
      (ev : ChangeEvent) (r : Result (Unit {0})) (a : Agent G)
      → (push_snapshot w ev r a).paused_until ≡ a.paused_until
  unfolding push_snapshot pushed
  push_snapshot-pause ev (err e) a = refl
  push_snapshot-pause ev (ok _) a = ground arith

  publish_shadow-pause :
      (ev : ChangeEvent) (a : Agent G) → (publish_shadow w ev a).paused_until ≡ a.paused_until
  unfolding publish_shadow
  publish_shadow-pause ev a = elim (Bool-cases (str_eq (w.remote_for ev.repo.local_path) [])) [
    | inl e ↦ rw (e, publish_shadow) refl
    | inr e ↦ rw (e, publish_shadow) (push_snapshot-pause ev _ _)
  ]

  finish_event-pause :
      (now : Time) (ev : ChangeEvent) (r : Result Analysis) (a : Agent G)
      → (finish_event w now ev r a).paused_until ≡ a.paused_until
  unfolding finish_event
  finish_event-pause now ev (err e) a = refl
  finish_event-pause now ev (ok res) a = refl

  process_event-pause :
      (now : Time) (ev : ChangeEvent) (a : Agent G)
      → (process_event w now ev a).paused_until ≡ a.paused_until
  unfolding process_event
  process_event-pause now ev a = finish_event-pause now ev _ _ ∙ publish_shadow-pause ev a

  drain-pause :
      (fuel : ℕ) (clock : ℕ → Time) (a : Agent G)
      → (drain w fuel clock a).0.paused_until ≡ a.paused_until
  unfolding drain update_queue_depth
  drain-pause zero clock a = refl
  drain-pause (suc fuel) clock a =
      let now = clock fuel in
      let b = record a { conn = (claim w.library now a.conn).1 } in
      elim (Result-cases (claim w.library now a.conn).0) [
        | inl (e, k) ↦ rw (k, drain) refl
        | inr (o, k) ↦ elim (Option-cases o) [
          | inl n ↦ rw (k, n, drain) refl
          | inr (ev, n) ↦
              rw (k, n, drain)
                (drain-pause fuel clock (update_queue_depth w (process_event w now ev b))
                  ∙ process_event-pause now ev b)
        ]
      ]

  send_items-pause :
      (send : ℕ → Bytes → Option Bytes) (its : List OutboxItem) (a : Agent G)
      → (send_items w send its a).paused_until ≡ a.paused_until
  unfolding send_items delivered_item
  send_items-pause send [] a = refl
  send_items-pause send (it ∷ its) a = elim (Option-cases (send (length a.sent) it.payload)) [
    | inr (e, k) ↦ rw (k, send_items) refl
    | inl k ↦ rw (k, send_items) (send_items-pause send its (delivered_item w it none a))
  ]

  send_listed-pause :
      (send : ℕ → Bytes → Option Bytes) (r : Result (List OutboxItem)) (a : Agent G)
      → (send_listed w send r a).paused_until ≡ a.paused_until
  unfolding send_listed show_outbox
  send_listed-pause send (err e) a = refl
  send_listed-pause send (ok its) a = send_items-pause send its a

  send_outbox-pause : (a : Agent G) → (send_outbox w a).paused_until ≡ a.paused_until
  unfolding send_outbox tick
  send_outbox-pause a = elim (Option-cases w.hub) [
    | inl k ↦ rw (k, send_outbox) refl
    | inr (send, k) ↦
        rw (k, send_outbox)
          (send_listed-pause send (list_outbox 50 a.conn).0
            (record a { conn = (list_outbox 50 a.conn).1 }))
  ]

  handler-pause :
      (now : Time) (r : Request) (a : Agent G)
      → is_within a.paused_until (requested now r) ≡ true
      → (handler w now r a).1.paused_until ≡ a.paused_until
  unfolding handler handle_metrics handle_status handle_recent handle_record handle_page
  handler-pause now r a h = ground (arith, h)

  change-pause :
      (now : Time) (root : Bytes) (a : Agent G)
      → is_within a.paused_until (changed now root) ≡ true
      → handle_change w now root a ≡ a
  unfolding handle_change
  change-pause now root a h = rw h refl

  step-pause :
      (e : Event) (a : Agent G)
      → is_within a.paused_until e ≡ true
      → (step w e a).paused_until ≡ a.paused_until
  unfolding step
  step-pause started a h = absurd (cc h)
  step-pause (changed now root) a h =
      ap (λ (b : Agent G). b.paused_until) (change-pause now root a h)
  step-pause (woke fuel clock) a h = drain-pause fuel clock (record a { wake = a.wake - 1 })
  step-pause ticked a h = send_outbox-pause a
  step-pause (requested now r) a h = handler-pause now r a h

  step-waiting :
      (e : Event) (a : Agent G)
      → is_within a.paused_until e ≡ true
      → waiting (step w e a).conn.db ≤ waiting a.conn.db
  unfolding step
  step-waiting started a h = absurd (cc h)
  step-waiting (changed now root) a h = rw (change-pause now root a h) (omega arith)
  step-waiting (woke fuel clock) a h =
      let b = record a { wake = a.wake - 1 } in
      let c = (drain w fuel clock b).0.conn in
      Performs-waiting w.library a.conn c (
        Performs-wider w.library is_work is_quiet is_work-is_quiet a.conn c
          (drain-Works w fuel clock b))
  step-waiting ticked a h =
      let c = (send_outbox w a).conn in
      Performs-waiting w.library a.conn c (
        Performs-wider w.library is_delivery is_quiet is_delivery-is_quiet a.conn c
          (send_outbox-Sends w a))
  step-waiting (requested now r) a h =
      Performs-waiting w.library a.conn (handler w now r a).1.conn
        (handler-Reads w is_quiet (unfold is_quiet in refl) now r a)

  -- A paused daemon queues nothing: in a run in which the process goes on, no request sets or clears
  -- the pause, and every change comes before the end of the pause, the number of rows that wait does
  -- not grow.
  pub run-waiting :
      (es : List Event) (a : Agent G)
      → All (λ e. is_within a.paused_until e ≡ true) es
      → waiting (run w es a).conn.db ≤ waiting a.conn.db
  unfolding run
  run-waiting [] a h = omega arith
  run-waiting (e ∷ es) a h =
      let later = subst (λ t. All (λ e. is_within t e ≡ true) es) (sym (step-pause e a h.0)) h.1 in
      omega (arith, step-waiting e a h.0, run-waiting es (step w e a) later)
