-- ===== src/Agent/Reported.antt =====
-- The daemon's outbox sender and the hub: krennic/internal/agent/agent.go with
-- krennic/internal/hub/client.go and server.go.
use director_orson_callan_kr.Base.{
  ℕ, Bytes, ◌≡◌, refl, sym, subst, ◌⊎◌, inl, inr, true, Option, none, some, List, [], ◌∷◌, ◌++◌,
  length, drop, ok, str_eq, utf8,
}
use director_orson_callan_kr.Model.{Time}
use director_orson_callan_kr.Audit.{Report}
use director_orson_callan_kr.Sql.{Conn, next_fault, later_faults}
use director_orson_callan_kr.Hub.Log.{HubDb}
use director_orson_callan_kr.Hub.Client.{Client, Request, Response, report_request, delivered, send}
use director_orson_callan_kr.Hub.Server.{Server, handler, handle_report}
use director_orson_callan_kr.Hub.Access.{IsStored, delivered-IsStored}
use director_orson_callan_kr.Agent.Defs.{World, Agent}
use director_orson_callan_kr.Agent.Listed.{is_row}
use director_orson_callan_kr.Agent.Awaits.{awaits}
use director_orson_callan_kr.Agent.Daemon.{Event, step, run}
use director_orson_callan_kr.Agent.Delivered.{Taken, run-delivers}

drop-append : (p s : Bytes) → drop (length p) (p ++ s) ≡ s
drop-append [] s = refl
drop-append (c ∷ p) s = drop-append p s

-- A hub that a client reaches under its base URL: its log and its clock at each request.
module _ (s : Server) (client : Client) (logs : ℕ → Conn HubDb) (times : ℕ → Time) where
  -- The request as it reaches the hub, without the base URL.
  abbrev received : Bytes → Request
  received payload =
      let r = report_request client payload in
      record r { target = drop (length client.url) r.target }

  -- The hub's answer to a payload, and its log behind it.
  abbrev answered : ℕ → Bytes → Response × Conn HubDb
  answered n payload = handler s (times n) (received payload) (logs n)

  abbrev pub sends : ℕ → Bytes → Option Bytes
  sends n payload = send (λ _. ok (answered n payload).0) client payload

  -- A payload was a report, and the hub's log has a row with its id.
  abbrev pub IsLogged : ℕ → Bytes → Type 0
  IsLogged n payload =
      (rep : Report) × (s.codec.decode_report payload ≡ ok rep)
      × IsStored s rep (answered n payload).1.db

  reaches :
      (n : ℕ) (payload : Bytes)
      → answered n payload ≡ handle_report s (times n) (received payload) (logs n)
  unfolding handler report_request str_eq
  reaches n payload = rw (drop-append client.url (utf8 "/api/report")) refl

  module _ (reads : (n : ℕ) → next_fault (later_faults (later_faults (logs n).faults)) ≡ none) where
    sends-IsLogged : (n : ℕ) (payload : Bytes) → sends n payload ≡ none → IsLogged n payload
    unfolding send report_request
    sends-IsLogged n payload h =
        let at_hub = reaches n payload in
        let h' = subst (λ (x : Response × Conn HubDb). delivered (ok x.0) ≡ none) at_hub h in
        let (_, (rep, k, row)) =
          delivered-IsStored s (times n) (received payload) (logs n) (reads n) h' in
        (rep, k, subst (λ (x : Response × Conn HubDb). IsStored s rep x.1.db) (sym at_hub) row)

    module _ {G : Type 0} (w : World G) (id : Bytes) (hub : w.hub ≡ some sends) where
      -- At this event the daemon sends a payload that the outbox has for the id, as its request
      -- number `n`, and the hub's log behind this request has the report.
      abbrev pub LoggedAt : Event → Agent G → Type 0
      LoggedAt e a =
          (later : List Bytes) × (payload : Bytes) × (earlier : List Bytes) × ((step w e a).sent
            ≡ later ++ (payload ∷ (earlier ++ a.sent)))
          × (is_row id payload a.conn.db.outbox ≡ true)
          × IsLogged (length (earlier ++ a.sent)) payload

      -- At one of these events.
      unfoldable pub Logged : List Event → Agent G → Type 0
      Logged [] a = ⊥
      Logged (e ∷ es) a = LoggedAt e a ⊎ Logged es (step w e a)

      the_hub : (f : ℕ → Bytes → Option Bytes) → w.hub ≡ some f → f ≡ sends
      the_hub f k = cc (hub, k)

      Taken-Logged : (es : List Event) (a : Agent G) → Taken w id es a → Logged es a
      unfolding Taken Logged
      Taken-Logged [] a h = absurd h
      Taken-Logged (e ∷ es) a (inr h) = inr (Taken-Logged es (step w e a) h)
      Taken-Logged (e ∷ es) a (inl (_, (f, k, (later, payload, earlier, q, row, t)))) =
          let n = length (earlier ++ a.sent) in
          inl (
            later,
            payload,
            earlier,
            q,
            row,
            sends-IsLogged n payload
                (subst (λ (g : ℕ → Bytes → Option Bytes). g n payload ≡ none) (the_hub f k) t),
          )

      -- No report is lost on the way to the hub: in any run of the daemon, with any failures, with
      -- a hub behind its client whose query for the last hash does not fail, a report of the outbox
      -- is still there at the end, or at some event of the run the daemon sent a payload that the
      -- outbox had for it, the payload was a report, and the hub's log behind that very request, the
      -- one with its number among the daemon's, has a row with that report's id. The log that the
      -- hub finds at each request is any log: others report to it too.
      pub run-Logged :
          (es : List Event) (a : Agent G)
          → awaits id a.conn.db ≡ true
          → (awaits id (run w es a).conn.db ≡ true) ⊎ Logged es a
      run-Logged es a h = elim (run-delivers w id es a h) [
        | inl k ↦ inl k
        | inr t ↦ inr (Taken-Logged es a t)
      ]
