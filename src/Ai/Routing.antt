-- ===== src/Ai/Routing.antt =====
-- When a change is escalated, and what follows.
use director_orson_callan_kr.Base.{
  ◌+◌, ◌≤◌, ◌≡◌, refl, Bool, true, false, ◌&&◌, not, Option, none, some, ok, arith, length, str_eq,
  str_eq_iff, utf8,
}
use director_orson_callan_kr.Model.{ChangeEvent, TriageResult, ReviewResult, trivial}
use director_orson_callan_kr.Config.Defs.{RoutingConfig, StageConfig}
use director_orson_callan_kr.Ai.Types.{Gateway, Environment, Run, Analysis, CompletionRequest, Sink}
use director_orson_callan_kr.Ai.Rules.{should_escalate}
use director_orson_callan_kr.Ai.Gateway.{
  complete, call, run_triage, run_review, route, keep_triage, keep_review, budget_exhausted,
  triage_request, review_request,
}

-- A trivial change is escalated if and only if its producer forces a review.
trivial_forced :
    (routing : RoutingConfig) (ev : ChangeEvent) (tr : TriageResult)
    → tr.relevance ≡ trivial
    → should_escalate routing ev tr ≡ str_eq ev.routing_hints.force_stage (utf8 "review")
unfolding should_escalate
trivial_forced routing ev tr h = ground (arith, str_eq_iff tr.relevance trivial)

module _ {S : Type 0} (env : Environment) (g : Gateway S) where
  pub complete_calls :
      (stage : StageConfig) (req : CompletionRequest) (run : Run S)
      → (length (complete env g stage req run).1.calls ≤ length run.calls + 2)
        × ((complete env g stage req run).1.store ≡ run.store)
  unfolding complete call
  complete_calls stage req run = ground arith

  pub run_triage_calls :
      (ev : ChangeEvent) (run : Run S)
      → (length (run_triage env g ev run).1.calls ≤ length run.calls + 2)
        × ((run_triage env g ev run).1.store ≡ run.store)
  unfolding run_triage
  run_triage_calls ev run = ground (arith, complete_calls g.triage (triage_request env g ev) run)

  pub run_review_calls :
      (ev : ChangeEvent) (tr : TriageResult) (run : Run S)
      → (length (run_review env g ev tr run).1.calls ≤ length run.calls + 2)
        × ((run_review env g ev tr run).1.store ≡ run.store)
  unfolding run_review
  run_review_calls ev tr run =
      ground (arith, complete_calls g.review (review_request env g ev tr) run)

  pub keep_triage_calls :
      (sink : Option (Sink S)) (ev : ChangeEvent) (tr : TriageResult) (run : Run S)
      → (keep_triage env g sink ev tr run).calls ≡ run.calls
  unfolding keep_triage
  keep_triage_calls none ev tr run = refl
  keep_triage_calls (some sink) ev tr run = ground arith

  pub keep_review_calls :
      (sink : Option (Sink S)) (ev : ChangeEvent) (rv : ReviewResult) (run : Run S)
      → (keep_review env g sink ev rv run).calls ≡ run.calls
  unfolding keep_review
  keep_review_calls none ev rv run = refl
  keep_review_calls (some sink) ev rv run = ground arith

  pub budget_exhausted_calls :
      (sink : Option (Sink S)) (run : Run S) → (budget_exhausted env g sink run).1.calls ≡ run.calls
  unfolding budget_exhausted
  budget_exhausted_calls none run = refl
  budget_exhausted_calls (some sink) run = ground arith

  -- Whether a triaged change gets a deep review.
  abbrev pub gets_review : ChangeEvent → TriageResult → Run S → Bool
  gets_review ev tr run =
      should_escalate g.routing ev tr && not (budget_exhausted env g g.sink run).0

  abbrev pub has_review : Option ReviewResult → Bool
  has_review none = false
  has_review (some rv) = true

  -- What a successful analysis behind a triage says: the triage's result, whether the rule
  -- escalates, and whether the budget stopped it; a review is there exactly if neither did.
  route_ok :
      (ev : ChangeEvent) (tr : TriageResult) (run : Run S) (res : Analysis)
      → (route env g ev tr run).0 ≡ ok res
      → (res.triage ≡ some tr)
        × (res.escalated ≡ should_escalate g.routing ev tr)
        × (res.budget_hit
            ≡ (should_escalate g.routing ev tr && (budget_exhausted env g g.sink run).0))
        × (has_review res.review ≡ gets_review ev tr run)
  unfolding route
  route_ok ev tr run res h = ground arith

  -- Without a review no provider is called, and the analysis succeeds.
  route_quiet :
      (ev : ChangeEvent) (tr : TriageResult) (run : Run S)
      → gets_review ev tr run ≡ false
      → ((route env g ev tr run).1.calls ≡ run.calls)
        × ((route env g ev tr run).0
            ≡ ok (record {
              triage = some tr;
              review = none;
              escalated = should_escalate g.routing ev tr;
              budget_hit = should_escalate g.routing ev tr;
            }))
  unfolding route
  route_quiet ev tr run h = ground (arith, budget_exhausted_calls g.sink run)
