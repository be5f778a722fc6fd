-- ===== src/Ai/Gateway.antt =====
-- krennic/internal/ai/ai.go: the Gateway. What a provider answers, and the day that the clock
-- shows, is given by the environment for each moment of the run; a moment passes with each call of
-- a provider. The calls are kept in a list, the newest first.
use director_orson_callan_kr.Base.{
  Bytes, Bool, true, false, ◌&&◌, not, Option, none, some, [], ◌∷◌, ◌++◌, any, Result, ok, err,
  Exec, pure, raise, lift, ◌>>=◌, length, str_eq, utf8, if◌then◌else◌,
}
use director_orson_callan_kr.Model.{ChangeEvent, TriageResult, ReviewResult, Float64}
use director_orson_callan_kr.Config.Defs.{StageConfig}
use director_orson_callan_kr.Ai.Prompts.{render_event_prompt, render_review_prompt}
use director_orson_callan_kr.Ai.Types.{
  Analysis, CompletionRequest, CompletionResponse, Environment, Gateway, Run, Sink,
}
use director_orson_callan_kr.Ai.Rules.{or_comment, or_minor, parse_json, should_escalate, wrap}

module _ {S : Type 0} (env : Environment) (g : Gateway S) where
  -- A call of the provider under a key.
  unfoldable pub call : Bytes → CompletionRequest → Exec (Run S) (Result CompletionResponse)
  call key req run =
      (ok (env.answer (length run.calls) key req), record run { calls = (key, req) ∷ run.calls })

  abbrev pub is_configured : Bytes → Bool
  is_configured key = any (λ k. str_eq k key) g.providers

  -- The reply of the fallback, or the error of the primary.
  unfoldable pub or_fallback :
      Bytes → Bytes → Result CompletionResponse → Exec (Run S) (CompletionResponse × Bytes)
  or_fallback primary e (ok r2) = pure (r2, g.name g.fallback)
  or_fallback primary e (err e2) = raise e

  unfoldable pub after_primary :
      Bytes
      → CompletionRequest
      → Result CompletionResponse
      → Exec (Run S) (CompletionResponse × Bytes)
  unfolding or_fallback
  after_primary primary req (ok resp) = pure (resp, g.name primary)
  after_primary primary req (err e) =
      if not (str_eq g.fallback []) && (not (str_eq g.fallback primary) && is_configured g.fallback)
      then (do r2 ← call g.fallback req; or_fallback primary e r2)
      else raise e

  -- complete: the response and the name of the provider that gave it.
  unfoldable pub complete :
      StageConfig → CompletionRequest → Exec (Run S) (CompletionResponse × Bytes)
  unfolding call after_primary
  complete stage req =
      if is_configured stage.provider
      then (do resp ← call stage.provider req; after_primary stage.provider req resp)
      else raise (utf8 "provider " ++ (env.quote stage.provider ++ utf8 " not configured"))

  abbrev pub triage_request : ChangeEvent → CompletionRequest
  triage_request ev = record {
    system = env.triage_system_prompt;
    user = render_event_prompt ev;
    model = g.triage.model;
    max_tokens = 512;
    json_output = true;
  }

  abbrev pub review_request : ChangeEvent → TriageResult → CompletionRequest
  review_request ev tr = record {
    system = env.review_system_prompt;
    user = render_review_prompt ev (some tr);
    model = g.review.model;
    max_tokens = 2048;
    json_output = true;
  }

  abbrev pub stamp_triage : ChangeEvent → CompletionResponse → Bytes → TriageResult → TriageResult
  stamp_triage ev resp prov tr = record tr {
    change_id = ev.change_id;
    provider = prov;
    model = g.triage.model;
    tokens = resp.tokens;
    cost_usd = resp.cost_usd;
    relevance = or_minor tr.relevance;
  }

  abbrev pub stamp_review : ChangeEvent → CompletionResponse → Bytes → ReviewResult → ReviewResult
  stamp_review ev resp prov rv = record rv {
    change_id = ev.change_id;
    provider = prov;
    model = g.review.model;
    tokens = resp.tokens;
    cost_usd = resp.cost_usd;
    verdict = or_comment rv.verdict;
  }

  unfoldable pub run_triage : ChangeEvent → Exec (Run S) TriageResult
  unfolding parse_json wrap
  run_triage ev = do
    (resp, prov) ← complete g.triage (triage_request ev)
    tr ←
        lift (
          wrap (utf8 "parse triage json from " ++ prov) (parse_json env.unmarshal_triage resp.text))
    pure (stamp_triage ev resp prov tr)

  unfoldable pub run_review : ChangeEvent → TriageResult → Exec (Run S) ReviewResult
  unfolding parse_json wrap
  run_review ev tr = do
    (resp, prov) ← complete g.review (review_request ev tr)
    rv ←
        lift (
          wrap (utf8 "parse review json from " ++ prov) (parse_json env.unmarshal_review resp.text))
    pure (stamp_review ev resp prov rv)

  -- charge, with the sink that is there.
  unfoldable pub charge : Sink S → Float64 → Run S → Run S
  charge sink usd run =
      if env.float_le usd 0
      then run
      else record run { store = sink.add_cost (env.day (length run.calls)) usd run.store }

  -- SaveTriage and charge, if there is a sink.
  unfoldable pub keep_triage : Option (Sink S) → ChangeEvent → TriageResult → Run S → Run S
  unfolding charge
  keep_triage none ev tr run = run
  keep_triage (some sink) ev tr run =
      charge sink tr.cost_usd (record run { store = sink.save_triage ev.change_id tr run.store })

  unfoldable pub keep_review : Option (Sink S) → ChangeEvent → ReviewResult → Run S → Run S
  unfolding charge
  keep_review none ev rv run = run
  keep_review (some sink) ev rv run =
      charge sink rv.cost_usd (record run { store = sink.save_review ev.change_id rv run.store })

  -- Whether the daily budget is exhausted. The store is read only if there is a budget.
  unfoldable pub budget_exhausted : Option (Sink S) → Run S → Bool × Run S
  budget_exhausted none run = (false, run)
  budget_exhausted (some sink) run =
      if env.float_lt 0 g.daily_usd
      then (let (spent, store) = sink.spend_for_day (env.day (length run.calls)) run.store in
          (env.float_le g.daily_usd spent, record run { store = store }))
      else (false, run)

  unfoldable pub deep_review : ChangeEvent → TriageResult → Exec (Run S) Analysis
  unfolding run_review wrap
  deep_review ev tr run =
      let (rv, run') = run_review ev tr run in
      elim (wrap (utf8 "review") rv) [
        | err e ↦ (err e, run')
        | ok r ↦ (
          ok (record { triage = some tr; review = some r; escalated = true; budget_hit = false }),
          keep_review g.sink ev r run',
        )
      ]

  -- Analyze behind the triage.
  unfoldable pub route : ChangeEvent → TriageResult → Exec (Run S) Analysis
  unfolding deep_review
  route ev tr run =
      if not (should_escalate g.routing ev tr)
      then (
        ok (record { triage = some tr; review = none; escalated = false; budget_hit = false }),
        run,
      )
      else (let (hit, run') = budget_exhausted g.sink run in
          if hit
          then (
            ok (record { triage = some tr; review = none; escalated = true; budget_hit = true }),
            run',
          )
          else deep_review ev tr run')

  -- Analyze. The partial result that accompanies an error is not modelled: no caller reads it.
  unfoldable pub analyze : ChangeEvent → Exec (Run S) Analysis
  unfolding run_triage wrap
  analyze ev run =
      let (r, run') = run_triage ev run in
      elim (wrap (utf8 "triage") r) [
        | err e ↦ (err e, run')
        | ok tr ↦ route ev tr (keep_triage g.sink ev tr run')
      ]
