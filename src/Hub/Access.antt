-- ===== src/Hub/Access.antt =====
-- Who may read and write the log over HTTP, and what a success answered to a client means.
use director_orson_callan_kr.Base.{
  ℕ, Bytes, ◌≡◌, ◌≢◌, refl, ◌⊎◌, true, false, ◌||◌, ◌&&◌, none, some, inl, inr, [], Result, ok, err,
  arith, Bool-cases, str_eq, utf8,
}
use director_orson_callan_kr.Model.{Time}
use director_orson_callan_kr.Audit.{Report}
use director_orson_callan_kr.Sql.{Conn, exec, next_fault, later_faults}
use director_orson_callan_kr.Hub.Log.{
  row_for, AuditRow, HubDb, find_report, append, feed, verify, stats,
}
use director_orson_callan_kr.Hub.Append.{ReadsLast, append-ok, find_report-with_row, new_row}
use director_orson_callan_kr.Hub.Client.{Request, delivered}
use director_orson_callan_kr.Hub.Server.{
  Server, authed, store_report, decoded_report, handle_report, handle_feed, handle_verify,
  handle_stats, handle_dashboard, handler, unauthorized, http_error, limit_or, appended_response,
}

module _ (s : Server) where
  stats_unchanged : (c : Conn HubDb) → (stats c).1.db ≡ c.db
  unfolding stats exec
  stats_unchanged c = ground arith

  feed_unchanged :
      (limit : ℕ) (user repo : Bytes) (c : Conn HubDb) → (feed limit user repo c).1.db ≡ c.db
  unfolding feed exec
  feed_unchanged limit user repo c = ground arith

  verify_unchanged : (digest : Bytes → Bytes) (c : Conn HubDb) → (verify digest c).1.db ≡ c.db
  unfolding verify exec
  verify_unchanged digest c = ground arith

  -- Only `/api/report` writes: any other request leaves the log as it is, and so does a report whose
  -- request has no token.
  handler_reads_only :
      (now : Time) (r : Request) (c : Conn HubDb)
      → (str_eq r.target (utf8 "/api/report") && authed s r) ≡ false
      → (handler s now r c).1.db ≡ c.db
  unfolding handler handle_report handle_feed handle_verify handle_stats handle_dashboard
  handler_reads_only now r c h = ground (
    arith,
    stats_unchanged c,
    verify_unchanged s.library.digest c,
    feed_unchanged (limit_or 100 (s.codec.atoi (r.query (utf8 "limit")))) (r.query (utf8 "user"))
        (r.query (utf8 "repo")) c,
  )

  -- Without the token of a hub that has one, no answer but that of `/api/stats` depends on the log.
  unauthorized_sees_nothing :
      (now : Time) (r : Request) (c d : Conn HubDb)
      → authed s r ≡ false
      → str_eq r.target (utf8 "/api/stats") ≡ false
      → (handler s now r c).0 ≡ (handler s now r d).0
  unfolding handler handle_report handle_feed handle_verify handle_dashboard
  unauthorized_sees_nothing now r c d h n = ground arith

  -- A row with the report id is in the log.
  abbrev pub IsStored : Report → HubDb → Type 0
  IsStored rep d = (row : AuditRow) × (find_report rep.report_id d.audit ≡ some row)

  append-IsStored :
      (now : Time) (rep : Report) (c : Conn HubDb) (a : ℕ × Bytes)
      → ReadsLast s.library now rep c
      → (append s.library now rep c).0 ≡ ok a
      → IsStored rep (append s.library now rep c).1.db
  append-IsStored now rep c a reads h =
      let (is_entry, is_db) = append-ok s.library now rep c a reads h in
      let (row, here, same) =
        find_report-with_row rep.report_id (new_row s.library now rep c.db) c.db
          (unfold row_for in refl) in
      (row, rw is_db here)

  appended_ok :
      (res : Result (ℕ × Bytes))
      → delivered (ok (appended_response s res)) ≡ none
      → (a : ℕ × Bytes) × (res ≡ ok a)
  unfolding delivered appended_response
  appended_ok (ok a) h = (a, refl)
  appended_ok (err e) h = absurd (cc h)

  store_report-IsStored :
      (now : Time) (rep : Report) (c : Conn HubDb)
      → ReadsLast s.library now rep c
      → delivered (ok (store_report s now rep c).0) ≡ none
      → IsStored rep (store_report s now rep c).1.db
  unfolding store_report delivered
  store_report-IsStored now rep c reads h =
      elim (Bool-cases (str_eq rep.report_id [] || str_eq rep.change_id [])) [
        | inl e ↦ absurd (ground (arith, h, e))
        | inr e ↦ rw e (
            let (a, k) = appended_ok (append s.library now rep c).0 (rw e at h) in
            append-IsStored now rep c a reads k)
      ]

  not_delivered_405 : delivered (ok (http_error 405 (utf8 "POST only"))) ≢ none
  unfolding delivered
  not_delivered_405 h = cc

  not_delivered_401 : delivered (ok unauthorized) ≢ none
  unfolding delivered
  not_delivered_401 h = cc

  decoded_report-IsStored :
      (now : Time) (res : Result Report) (c : Conn HubDb)
      → ((rep : Report) → ReadsLast s.library now rep c)
      → delivered (ok (decoded_report s now res c).0) ≡ none
      → (rep : Report) × (res ≡ ok rep) × IsStored rep (decoded_report s now res c).1.db
  unfolding decoded_report delivered
  decoded_report-IsStored now (err e) c reads h = absurd (cc h)
  decoded_report-IsStored now (ok rep) c reads h =
      (rep, refl, store_report-IsStored now rep c (reads rep) h)

  -- What a client may conclude: if Send takes the answer to a report for a success, and the hub's
  -- query for the last hash has not failed, then the body was a report, the request had the token,
  -- and the log has a row with its report id.
  pub delivered-IsStored :
      (now : Time) (r : Request) (c : Conn HubDb)
      → next_fault (later_faults (later_faults c.faults)) ≡ none
      → delivered (ok (handle_report s now r c).0) ≡ none
      → (authed s r ≡ true)
        × ((rep : Report) × (s.codec.decode_report r.body ≡ ok rep)
            × IsStored rep (handle_report s now r c).1.db)
  unfolding handle_report
  delivered-IsStored now r c reads h = elim (Bool-cases (str_eq r.method (utf8 "POST"))) [
    | inr e ↦ absurd (not_delivered_405 (rw e at h))
    | inl e ↦ elim (Bool-cases (authed s r)) [
      | inr f ↦ absurd (not_delivered_401 (rw (e, f) at h))
      | inl f ↦
          rw (e, f)
            (
              refl,
              decoded_report-IsStored now (s.codec.decode_report r.body) c (λ rep. reads)
                  (rw (e, f) at h),
            )
    ]
  ]

  -- What a request without the token of a hub that has one does: it leaves the log as it is, and
  -- unless it is for `/api/stats`, its answer is the same for every log and every failure.
  pub handler-unauthorized :
      (now : Time) (r : Request) (c d : Conn HubDb)
      → authed s r ≡ false
      → ((handler s now r c).1.db ≡ c.db)
        × ((str_eq r.target (utf8 "/api/stats") ≡ true)
            ⊎ ((handler s now r c).0 ≡ (handler s now r d).0))
  handler-unauthorized now r c d h = (
    handler_reads_only now r c (ground (arith, h)),
    elim (Bool-cases (str_eq r.target (utf8 "/api/stats"))) [
      | inl e ↦ inl e
      | inr n ↦ inr (unauthorized_sees_nothing now r c d h n)
    ],
  )
