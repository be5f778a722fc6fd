-- ===== src/Ai/Analysis.antt =====
-- What Analyze as a whole calls and returns, and the fallback between providers.
use director_orson_callan_kr.Base.{
  suc, ◌+◌, ◌≤◌, Bytes, ◌≡◌, ◌⊎◌, Bool, true, false, ◌&&◌, not, [], Result, ok, err, arith, length,
  str_eq,
}
use director_orson_callan_kr.Model.{ChangeEvent, TriageResult}
use director_orson_callan_kr.Config.Defs.{StageConfig}
use director_orson_callan_kr.Ai.Types.{
  Gateway, Environment, Run, CompletionRequest, CompletionResponse,
}
use director_orson_callan_kr.Ai.Gateway.{
  complete, call, is_configured, route, analyze, budget_exhausted,
}
use director_orson_callan_kr.Ai.Routing.{
  run_triage_calls, run_review_calls, keep_triage_calls, keep_review_calls, budget_exhausted_calls,
}

abbrev pub is_err {ℓ} : {A : Type ℓ} → Result A → Bool
is_err (ok a) = false
is_err (err e) = true

module _ {S : Type 0} (env : Environment) (g : Gateway S) where
  -- The answer of a provider to the next call, and to the one after it.
  abbrev pub first_answer : Run S → Bytes → CompletionRequest → Result CompletionResponse
  first_answer run key req = env.answer (length run.calls) key req

  abbrev pub second_answer : Run S → Bytes → CompletionRequest → Result CompletionResponse
  second_answer run key req = env.answer (suc (length run.calls)) key req

  -- The fallback is there, and is not the primary itself.
  abbrev pub has_fallback : Bytes → Bool
  has_fallback primary =
      not (str_eq g.fallback [])
      && (not (str_eq g.fallback primary) && is_configured env g g.fallback)

  -- A stage that succeeds returns the answer of its provider with that provider's name, or, where
  -- the provider failed, the answer of the fallback with the fallback's name.
  complete_ok :
      (stage : StageConfig) (req : CompletionRequest) (run : Run S) (resp : CompletionResponse)
      (prov : Bytes)
      → (complete env g stage req run).0 ≡ ok (resp, prov)
      → ((first_answer run stage.provider req ≡ ok resp) × (prov ≡ g.name stage.provider))
        ⊎ ((is_err (first_answer run stage.provider req) ≡ true)
            × (has_fallback stage.provider ≡ true)
            × (second_answer run g.fallback req ≡ ok resp)
            × (prov ≡ g.name g.fallback))
  unfolding complete call
  complete_ok stage req run resp prov h = ground arith

  deep_calls :
      (ev : ChangeEvent) (tr : TriageResult) (run : Run S)
      → length (route env g ev tr run).1.calls ≤ length run.calls + 2
  unfolding route
  deep_calls ev tr run = grind (
    arith,
    budget_exhausted_calls env g g.sink run,
    run_review_calls env g ev tr (budget_exhausted env g g.sink run).1,
    keep_review_calls,
  )

  -- An analysis makes at most four calls of providers.
  pub analyze_calls :
      (ev : ChangeEvent) (run : Run S)
      → length (analyze env g ev run).1.calls ≤ length run.calls + 4
  unfolding analyze
  analyze_calls ev run = grind (arith, run_triage_calls env g ev run, keep_triage_calls, deep_calls)
