-- ===== src/Agent/Steps.antt =====
-- What each step of the daemon does to the store, as operations of the store.
use director_orson_callan_kr.Base.{
  ℕ, Bytes, ◌≡◌, refl, subst, Bool, true, false, Option, none, some, List, [], ◌∷◌, Result, ok, err,
  arith, Bool-cases, Option-cases, inl, inr, length, str_eq,
}
use director_orson_callan_kr.Model.{Time, ChangeEvent, Record}
use director_orson_callan_kr.Sql.{Conn}
use director_orson_callan_kr.Store.Schema.{Db, Library}
use director_orson_callan_kr.Store.Queue.{complete}
use director_orson_callan_kr.Store.Records.{get_record}
use director_orson_callan_kr.Store.Outbox.{OutboxItem, list_outbox, delete_outbox}
use director_orson_callan_kr.Store.Lifecycle.Defs.{
  Op, complete_op, fail_op, enqueue_outbox_op, delete_outbox_op, inc_outbox_op, read_op, apply,
}
use director_orson_callan_kr.Store.Lifecycle.Performs.{
  Performs, Performs-none, Performs-one, Performs-then, Performs-pending_count, Performs-get_record,
  Performs-list_outbox, Performs-outbox_depth,
}
use director_orson_callan_kr.Audit.{build_report}
use director_orson_callan_kr.Ai.Types.{Analysis}
use director_orson_callan_kr.Ai.Gateway.{analyze}
use director_orson_callan_kr.Agent.Defs.{World, Agent, update_queue_depth}
use director_orson_callan_kr.Agent.Work.{
  publish_shadow, push_snapshot, pushed, gateway_at, report_record, enqueue_to, enqueue_report,
  finish_event, process_event,
}
use director_orson_callan_kr.Agent.Outbox.{
  delivered_item, send_items, show_outbox, send_listed, tick, send_outbox,
}
use director_orson_callan_kr.Agent.Performs.{is_work, Works, analyze-Works}

-- The operations of a tick of the outbox sender.
unfoldable pub is_delivery : Op → Bool
is_delivery read_op = true
is_delivery (delete_outbox_op id) = true
is_delivery (inc_outbox_op id) = true
is_delivery _ = false

abbrev pub Sends : Library → Conn Db → Conn Db → Type 0
Sends lib = Performs lib is_delivery

module _ {G : Type 0} (w : World G) where
  pub update_queue_depth-Works :
      (a : Agent G) → Works w.library a.conn (update_queue_depth w a).conn
  unfolding update_queue_depth is_work
  update_queue_depth-Works a = Performs-pending_count w.library is_work refl a.conn

  push_snapshot-conn :
      (ev : ChangeEvent) (r : Result (Unit {0})) (a : Agent G)
      → (push_snapshot w ev r a).conn ≡ a.conn
  unfolding push_snapshot pushed
  push_snapshot-conn ev (err e) a = refl
  push_snapshot-conn ev (ok _) a = ground arith

  pub publish_shadow-conn : (ev : ChangeEvent) (a : Agent G) → (publish_shadow w ev a).conn ≡ a.conn
  unfolding publish_shadow
  publish_shadow-conn ev a = elim (Bool-cases (str_eq (w.remote_for ev.repo.local_path) [])) [
    | inl e ↦ rw (e, publish_shadow) refl
    | inr e ↦ rw (e, publish_shadow) (push_snapshot-conn ev _ _)
  ]

  report_record-Works :
      (now : Time) (id : Bytes) (r : Result Record) (c : Conn Db)
      → Works w.library c (report_record w now id r c)
  unfolding report_record is_work apply
  report_record-Works now id (err e) c = Performs-none w.library is_work c
  report_record-Works now id (ok rec) c =
      Performs-one w.library is_work
        (enqueue_outbox_op now id id (w.payload (build_report rec id now))) c _ refl refl

  enqueue_to-Works :
      (h : Option (ℕ → Bytes → Option Bytes)) (now : Time) (id : Bytes) (c : Conn Db)
      → Works w.library c (enqueue_to w h now id c)
  unfolding enqueue_to is_work
  enqueue_to-Works none now id c = Performs-none w.library is_work c
  enqueue_to-Works (some send) now id c =
      Performs-then w.library is_work c (get_record w.library id c).1 _
        (Performs-get_record w.library is_work refl c id)
        (report_record-Works now id (get_record w.library id c).0 (get_record w.library id c).1)

  finish_event-Works :
      (now : Time) (ev : ChangeEvent) (r : Result Analysis) (a : Agent G)
      → Works w.library a.conn (finish_event w now ev r a).conn
  unfolding finish_event enqueue_report is_work apply
  finish_event-Works now ev (err e) a =
      Performs-one w.library is_work (fail_op now ev.change_id e) a.conn _ refl refl
  finish_event-Works now ev (ok res) a =
      let c = (complete w.library now ev.change_id a.conn).1 in
      Performs-then w.library is_work a.conn c _
        (Performs-one w.library is_work (complete_op now ev.change_id) a.conn c refl refl)
        (enqueue_to-Works w.hub now ev.change_id c)

  pub process_event-Works :
      (now : Time) (ev : ChangeEvent) (a : Agent G)
      → Works w.library a.conn (process_event w now ev a).conn
  unfolding process_event
  process_event-Works now ev a =
      let b = publish_shadow w ev a in
      let r = analyze w.environment (gateway_at w now) ev (record { calls = []; store = b.conn }) in
      subst (λ c. Works w.library c (process_event w now ev a).conn) (publish_shadow-conn ev a)
        (Performs-then w.library is_work b.conn r.1.store _
          (analyze-Works w.library now w.environment w.gateway ev
            (record { calls = []; store = b.conn }))
          (finish_event-Works now ev r.0 _))

  send_items-Sends :
      (send : ℕ → Bytes → Option Bytes) (items : List OutboxItem) (a : Agent G)
      → Sends w.library a.conn (send_items w send items a).conn
  unfolding send_items delivered_item is_delivery apply
  send_items-Sends send [] a = Performs-none w.library is_delivery a.conn
  send_items-Sends send (it ∷ items) a = elim (Option-cases (send (length a.sent) it.payload)) [
    | inr (e, k) ↦
        rw (k, send_items)
          (Performs-one w.library is_delivery (inc_outbox_op it.report_id) a.conn _ refl refl)
    | inl k ↦
        rw (k, send_items)
          (Performs-then w.library is_delivery a.conn (delete_outbox it.report_id a.conn).1 _
            (Performs-one w.library is_delivery (delete_outbox_op it.report_id) a.conn _ refl refl)
            (send_items-Sends send items (delivered_item w it none a)))
  ]

  show_outbox-Sends : (a : Agent G) → Sends w.library a.conn (show_outbox w a).conn
  unfolding show_outbox is_delivery
  show_outbox-Sends a = Performs-outbox_depth w.library is_delivery refl a.conn

  send_listed-Sends :
      (send : ℕ → Bytes → Option Bytes) (r : Result (List OutboxItem)) (a : Agent G)
      → Sends w.library a.conn (send_listed w send r a).conn
  unfolding send_listed
  send_listed-Sends send (err e) a = Performs-none w.library is_delivery a.conn
  send_listed-Sends send (ok items) a =
      Performs-then w.library is_delivery a.conn (send_items w send items a).conn _
        (send_items-Sends send items a) (show_outbox-Sends (send_items w send items a))

  pub send_outbox-Sends : (a : Agent G) → Sends w.library a.conn (send_outbox w a).conn
  unfolding send_outbox tick is_delivery
  send_outbox-Sends a = elim (Option-cases w.hub) [
    | inl k ↦ rw (k, send_outbox) (Performs-none w.library is_delivery a.conn)
    | inr (send, k) ↦
        rw (k, send_outbox)
          (Performs-then w.library is_delivery a.conn (list_outbox 50 a.conn).1 _
            (Performs-list_outbox w.library is_delivery refl a.conn 50)
            (send_listed-Sends send (list_outbox 50 a.conn).0
              (record a { conn = (list_outbox 50 a.conn).1 })))
  ]
