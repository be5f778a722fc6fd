-- ===== src/Agent/Performs.antt =====
-- What the worker does to the store, as operations of the store.
use director_orson_callan_kr.Base.{
  ◌≡◌, refl, subst, Bool, true, false, some, utf8, Bool-cases, Result-cases, inl, inr, length,
}
use director_orson_callan_kr.Model.{Time, Float64, ChangeEvent, TriageResult, ReviewResult}
use director_orson_callan_kr.Sql.{Conn}
use director_orson_callan_kr.Store.Schema.{Db, Library}
use director_orson_callan_kr.Store.Lifecycle.Defs.{
  Op, enqueue_op, reset_op, claim_op, complete_op, fail_op, save_triage_op, save_review_op,
  add_cost_op, enqueue_outbox_op, apply, read_op,
}
use director_orson_callan_kr.Store.Lifecycle.Performs.{
  is_quiet, Performs, Performs-none, Performs-one, Performs-then, Performs-spend_for_day,
  Performs-wider,
}
use director_orson_callan_kr.Ai.Types.{Sink, Gateway, Environment, Run}
use director_orson_callan_kr.Ai.Rules.{should_escalate, wrap}
use director_orson_callan_kr.Ai.Gateway.{
  analyze, route, deep_review, run_triage, run_review, keep_triage, keep_review, charge,
  budget_exhausted,
}
use director_orson_callan_kr.Ai.Routing.{run_triage_calls, run_review_calls}
use director_orson_callan_kr.Agent.Defs.{store_sink}

-- The operations of a worker.
unfoldable pub is_work : Op → Bool
is_work read_op = true
is_work (claim_op now) = true
is_work (complete_op now id) = true
is_work (fail_op now id msg) = true
is_work (save_triage_op now id tr) = true
is_work (save_review_op now id rv) = true
is_work (add_cost_op day usd) = true
is_work (enqueue_outbox_op now id ch payload) = true
is_work _ = false

-- They make no row wait.
pub is_work-is_quiet : (op : Op) → is_work op ≡ true → is_quiet op ≡ true
unfolding is_work is_quiet
is_work-is_quiet (enqueue_op now ev) h = absurd (cc h)
is_work-is_quiet reset_op h = absurd (cc h)
is_work-is_quiet _ h = refl

-- A sequence of such operations.
abbrev pub Works : Library → Conn Db → Conn Db → Type 0
Works lib = Performs lib is_work

-- The operations of an analysis.
unfoldable pub is_analysis : Op → Bool
is_analysis read_op = true
is_analysis (save_triage_op now id tr) = true
is_analysis (save_review_op now id rv) = true
is_analysis (add_cost_op day usd) = true
is_analysis _ = false

is_analysis-is_work : (op : Op) → is_analysis op ≡ true → is_work op ≡ true
unfolding is_work is_analysis
is_analysis-is_work (save_triage_op now id tr) h = refl
is_analysis-is_work (save_review_op now id rv) h = refl
is_analysis-is_work (add_cost_op day usd) h = refl
is_analysis-is_work read_op h = refl
is_analysis-is_work _ h = absurd (cc h)

abbrev pub Analyses : Library → Conn Db → Conn Db → Type 0
Analyses lib = Performs lib is_analysis

module _ (lib : Library) (now : Time) (env : Environment) (g : Gateway (Conn Db)) where
  abbrev sink : Sink (Conn Db)
  sink = store_sink lib now

  -- The gateway over the store.
  abbrev gateway : Gateway (Conn Db)
  gateway = record g { sink = some sink }

  charge-Analyses :
      (usd : Float64) (run : Run (Conn Db))
      → Analyses lib run.store (charge env gateway sink usd run).store
  unfolding charge is_analysis apply
  charge-Analyses usd run = elim (Bool-cases (env.float_le usd 0)) [
    | inl e ↦ rw e (Performs-none lib is_analysis run.store)
    | inr e ↦ rw e (
        Performs-one lib is_analysis (add_cost_op (env.day (length run.calls)) usd) run.store _ refl
          refl)
  ]

  keep_triage-Analyses :
      (ev : ChangeEvent) (tr : TriageResult) (run : Run (Conn Db))
      → Analyses lib run.store (keep_triage env gateway (some sink) ev tr run).store
  unfolding keep_triage is_analysis apply
  keep_triage-Analyses ev tr run =
      let saved = sink.save_triage ev.change_id tr run.store in
      Performs-then lib is_analysis run.store saved _
        (Performs-one lib is_analysis (save_triage_op now ev.change_id tr) run.store saved refl
          refl)
        (charge-Analyses tr.cost_usd (record run { store = saved }))

  keep_review-Analyses :
      (ev : ChangeEvent) (rv : ReviewResult) (run : Run (Conn Db))
      → Analyses lib run.store (keep_review env gateway (some sink) ev rv run).store
  unfolding keep_review is_analysis apply
  keep_review-Analyses ev rv run =
      let saved = sink.save_review ev.change_id rv run.store in
      Performs-then lib is_analysis run.store saved _
        (Performs-one lib is_analysis (save_review_op now ev.change_id rv) run.store saved refl
          refl)
        (charge-Analyses rv.cost_usd (record run { store = saved }))

  budget_exhausted-Analyses :
      (run : Run (Conn Db))
      → Analyses lib run.store (budget_exhausted env gateway (some sink) run).1.store
  unfolding budget_exhausted is_analysis
  budget_exhausted-Analyses run = elim (Bool-cases (env.float_lt 0 g.daily_usd)) [
    | inl e ↦
        rw e (Performs-spend_for_day lib is_analysis refl run.store (env.day (length run.calls)))
    | inr e ↦ rw e (Performs-none lib is_analysis run.store)
  ]

  deep_review-Analyses :
      (ev : ChangeEvent) (tr : TriageResult) (run : Run (Conn Db))
      → Analyses lib run.store (deep_review env gateway ev tr run).1.store
  unfolding deep_review
  deep_review-Analyses ev tr run =
      let r = run_review env gateway ev tr run in
      subst (λ c. Analyses lib c (deep_review env gateway ev tr run).1.store)
        (run_review_calls env gateway ev tr run).1
        (elim (Result-cases (wrap (utf8 "review") r.0)) [
          | inl (e, k) ↦ rw (k, deep_review) (Performs-none lib is_analysis r.1.store)
          | inr (rv, k) ↦ rw (k, deep_review) (keep_review-Analyses ev rv r.1)
        ])

  route-Analyses :
      (ev : ChangeEvent) (tr : TriageResult) (run : Run (Conn Db))
      → Analyses lib run.store (route env gateway ev tr run).1.store
  unfolding route
  route-Analyses ev tr run = elim (Bool-cases (should_escalate g.routing ev tr)) [
    | inr e ↦ rw e (Performs-none lib is_analysis run.store)
    | inl e ↦
        let b = budget_exhausted env gateway (some sink) run in
        elim (Bool-cases b.0) [
          | inl k ↦ rw (e, k) (budget_exhausted-Analyses run)
          | inr k ↦
              rw (e, k)
                (Performs-then lib is_analysis run.store b.1.store _ (budget_exhausted-Analyses run)
                  (deep_review-Analyses ev tr b.1))
        ]
  ]

  pub analyze-Analyses :
      (ev : ChangeEvent) (run : Run (Conn Db))
      → Analyses lib run.store (analyze env gateway ev run).1.store
  unfolding analyze
  analyze-Analyses ev run =
      let r = run_triage env gateway ev run in
      subst (λ c. Analyses lib c (analyze env gateway ev run).1.store)
        (run_triage_calls env gateway ev run).1
        (elim (Result-cases (wrap (utf8 "triage") r.0)) [
          | inl (e, k) ↦ rw (k, analyze) (Performs-none lib is_analysis r.1.store)
          | inr (t, k) ↦
              rw (k, analyze)
                (Performs-then lib is_analysis r.1.store _ _ (keep_triage-Analyses ev t r.1)
                  (route-Analyses ev t (keep_triage env gateway (some sink) ev t r.1)))
        ])

  pub analyze-Works :
      (ev : ChangeEvent) (run : Run (Conn Db))
      → Works lib run.store (analyze env gateway ev run).1.store
  analyze-Works ev run =
      Performs-wider lib is_analysis is_work is_analysis-is_work run.store _
        (analyze-Analyses ev run)
