-- ===== src/Agent/Reads.antt =====
-- What the control server does to the store.
use director_orson_callan_kr.Base.{
  ℕ, ◌≡◌, sym, subst, Bool, true, false, not, if◌then◌else◌, str_eq, utf8, arith,
}
use director_orson_callan_kr.Model.{Time}
use director_orson_callan_kr.Store.Queue.{pending_count}
use director_orson_callan_kr.Store.Records.{spend_for_day}
use director_orson_callan_kr.Store.Outbox.{outbox_depth}
use director_orson_callan_kr.Store.Lifecycle.Defs.{Op, read_op}
use director_orson_callan_kr.Store.Lifecycle.Performs.{
  Performs, Performs-none, Performs-then, Performs-pending_count, Performs-outbox_depth,
  Performs-spend_for_day, Performs-recent_records, Performs-get_record,
}
use director_orson_callan_kr.Hub.Client.{Request, Response}
use director_orson_callan_kr.Hub.Server.{limit_or, http_error, ok_response}
use director_orson_callan_kr.Agent.Defs.{World, Agent}
use director_orson_callan_kr.Agent.Http.{
  handle_metrics, handle_status, handle_recent, handle_record, pause_for, handle_pause,
  handle_resume, handle_page, handler, seconds,
}

module _ {G : Type 0} (w : World G) (p : Op → Bool) (reads : p read_op ≡ true) where
  -- An answer whose handler has only read.
  abbrev Reads : Agent G → Response × Agent G → Type 0
  Reads a x = Performs w.library p a.conn (x.1).conn

  if-Reads :
      (b : Bool) (a : Agent G) (x y : Response × Agent G)
      → Reads a x
      → Reads a y
      → Reads a (if b then x else y)
  if-Reads true a x y h k = h
  if-Reads false a x y h k = k

  handle_status-Reads : (now : Time) (a : Agent G) → Reads a (handle_status w now a)
  unfolding handle_status
  handle_status-Reads now a =
      let c1 = (pending_count a.conn).1 in
      let c2 = (outbox_depth c1).1 in
      let day = w.console.day now in
      let c3 = (spend_for_day day c2).1 in
      Performs-then w.library p a.conn c1 c3 (Performs-pending_count w.library p reads a.conn) (
        Performs-then w.library p c1 c2 c3 (Performs-outbox_depth w.library p reads c1)
          (Performs-spend_for_day w.library p reads c2 day))

  handle_recent-Reads : (r : Request) (a : Agent G) → Reads a (handle_recent w r a)
  unfolding handle_recent
  handle_recent-Reads r a =
      Performs-recent_records w.library p reads a.conn
        (limit_or 50 (w.console.atoi (r.query (utf8 "limit"))))

  handle_record-Reads : (r : Request) (a : Agent G) → Reads a (handle_record w r a)
  unfolding handle_record
  handle_record-Reads r a = Performs-get_record w.library p reads a.conn (r.query (utf8 "id"))

  pause_for-conn : (now : Time) (d : ℕ) (a : Agent G) → (pause_for w now d a).conn ≡ a.conn
  unfolding pause_for
  pause_for-conn now d a = ground arith

  handle_pause-Reads : (now : Time) (r : Request) (a : Agent G) → Reads a (handle_pause w now r a)
  unfolding handle_pause
  handle_pause-Reads now r a =
      let d = seconds (limit_or 3600 (w.console.atoi (r.query (utf8 "seconds")))) in
      subst (Performs w.library p a.conn) (sym (pause_for-conn now d a))
        (Performs-none w.library p a.conn)

  handle_page-Reads : (r : Request) (a : Agent G) → Reads a (handle_page w r a)
  unfolding handle_page
  handle_page-Reads r a =
      let none = Performs-none w.library p a.conn in
      if-Reads (not (str_eq r.target (utf8 "/"))) a (http_error 404 (utf8 "404 page not found"), a)
        (ok_response w.console.dashboard, a) none none

  -- A request only reads the store.
  pub handler-Reads : (now : Time) (r : Request) (a : Agent G) → Reads a (handler w now r a)
  unfolding handler handle_metrics handle_resume
  handler-Reads now r a =
      let none = Performs-none w.library p a.conn in
      let page = handle_page w r a in
      let from_resume = if str_eq r.target (utf8 "/api/resume") then handle_resume w a else page in
      let from_pause =
        if str_eq r.target (utf8 "/api/pause") then handle_pause w now r a else from_resume in
      let from_record =
        if str_eq r.target (utf8 "/api/record") then handle_record w r a else from_pause in
      let from_recent =
        if str_eq r.target (utf8 "/api/recent") then handle_recent w r a else from_record in
      let from_status =
        if str_eq r.target (utf8 "/api/status") then handle_status w now a else from_recent in
      if-Reads (str_eq r.target (utf8 "/metrics")) a (handle_metrics w a) from_status none (
        if-Reads (str_eq r.target (utf8 "/api/status")) a (handle_status w now a) from_recent
          (handle_status-Reads now a)
          (if-Reads (str_eq r.target (utf8 "/api/recent")) a (handle_recent w r a) from_record
            (handle_recent-Reads r a)
            (if-Reads (str_eq r.target (utf8 "/api/record")) a (handle_record w r a) from_pause
              (handle_record-Reads r a)
              (if-Reads (str_eq r.target (utf8 "/api/pause")) a (handle_pause w now r a) from_resume
                (handle_pause-Reads now r a)
                (if-Reads (str_eq r.target (utf8 "/api/resume")) a (handle_resume w a) page none
                  (handle_page-Reads r a))))))
