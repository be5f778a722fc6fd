-- ===== src/Ai/Examples.antt =====
-- Tests of the analysis, and its theorems at concrete inputs.
use director_orson_callan_kr.Base.{
  ℕ, zero, suc, ◌+◌, ◌≤◌, Bytes, ◌≡◌, refl, true, false, none, some, [], ◌∷◌, ok, err, ltb, leb,
  utf8, str_eq, length, pos, index, trim_space, has_prefix,
}
use director_orson_callan_kr.Model.{ChangeEvent, TriageResult, ReviewResult, risky}
use director_orson_callan_kr.Ai.Types.{
  Gateway, Environment, Run, Analysis, CompletionRequest, CompletionResponse, Sink,
}
use director_orson_callan_kr.Ai.Rules.{should_escalate, json_object}
use director_orson_callan_kr.Ai.Gateway.{complete, call, route, analyze, budget_exhausted}
use director_orson_callan_kr.Ai.Prompts.{decimal}
use director_orson_callan_kr.Ai.Routing.{gets_review}
use director_orson_callan_kr.Ai.Analysis.{analyze_calls}

finds_object : json_object (utf8 "ok: {\"a\": {}} done") ≡ some (utf8 "{\"a\": {}}")
unfolding json_object index has_prefix trim_space
finds_object = refl

prints : decimal 1204 ≡ utf8 "1204"
unfolding decimal
prints = refl

abbrev event : Bytes → ChangeEvent
event force = record {
  schema_version = utf8 "1.0";
  change_id = utf8 "a";
  trace_id = utf8 "t";
  created_at = 5;
  developer = record {
    user_slug = utf8 "alice";
    git_name = [];
    git_email = [];
    machine = [];
    os_user = [];
  };
  repo = record {
    name = utf8 "svc";
    root_hint = utf8 "svc";
    remote = [];
    branch = utf8 "main";
    head_sha = [];
    shadow_ref = [];
    shadow_sha = [];
    local_path = [];
  };
  summary = record {
    files_changed = 1;
    lines_added = 70;
    lines_removed = 20;
    languages = [];
    redacted_paths = [];
    truncated = false;
  };
  diff = record { format = utf8 "unified"; context_lines = 3; hunks = [] };
  routing_hints = record { force_stage = force; budget_tier = utf8 "normal" };
  content_hash = utf8 "h";
}

abbrev triaged : Bytes → TriageResult
triaged relevance = record {
  change_id = utf8 "a";
  relevance = relevance;
  categories = [];
  escalate = false;
  reason = [];
  confidence = 0;
  provider = utf8 "p";
  model = utf8 "m";
  tokens = record { tokens_in = pos 1; tokens_out = pos 1 };
  cost_usd = 3;
}

abbrev reviewed : ReviewResult
reviewed = record {
  change_id = utf8 "a";
  verdict = utf8 "pass";
  summary = [];
  findings = [];
  provider = utf8 "p";
  model = utf8 "m";
  tokens = record { tokens_in = pos 1; tokens_out = pos 1 };
  cost_usd = 4;
}

abbrev response : CompletionResponse
response = record {
  text = utf8 "{}";
  tokens = record { tokens_in = pos 1; tokens_out = pos 1 };
  cost_usd = 3;
}

-- The first call of a run fails, the later ones answer.
abbrev world : Environment
world = record {
  answer = λ n key req. elim n [ zero ↦ err (utf8 "overloaded") | suc m ↦ ok response ];
  day = λ n. utf8 "2026-01-01";
  unmarshal_triage = λ s. ok (triaged risky);
  unmarshal_review = λ s. ok reviewed;
  float_lt = ltb;
  float_le = leb;
  triage_system_prompt = utf8 "triage";
  review_system_prompt = utf8 "review";
  quote = λ s. s;
}

-- A store that holds what was spent.
abbrev purse : Sink ℕ
purse = record {
  save_triage = λ id tr s. s;
  save_review = λ id rv s. s;
  add_cost = λ day usd s. s + usd;
  spend_for_day = λ day s. (s, s);
}

abbrev gateway : Gateway ℕ
gateway = record {
  providers = utf8 "p" ∷ utf8 "q" ∷ [];
  name = λ key. key;
  triage = record { provider = utf8 "p"; model = utf8 "m" };
  review = record { provider = utf8 "p"; model = utf8 "m" };
  routing = record { escalate_categories = utf8 "security" ∷ []; escalate_line_threshold = pos 80 };
  fallback = utf8 "q";
  daily_usd = 5;
  sink = some purse;
}

abbrev idle : Run ℕ
idle = record { calls = []; store = 0 }

abbrev spent : Run ℕ
spent = record { calls = []; store = 5 }

abbrev request : CompletionRequest
request = record { system = []; user = []; model = utf8 "m"; max_tokens = 512; json_output = true }

-- The primary fails, and the fallback answers.
falls_back : (complete world gateway gateway.triage request idle).0 ≡ ok (response, utf8 "q")
unfolding complete call str_eq
falls_back = refl

analyze_calls_example : length (analyze world gateway (event []) idle).1.calls ≤ 4
analyze_calls_example = analyze_calls world gateway (event []) idle

-- The money is spent: the change is escalated and not reviewed.
exhausted : gets_review world gateway (event []) (triaged risky) spent ≡ false
unfolding should_escalate budget_exhausted str_eq
exhausted = refl

abbrev stopped : Analysis
stopped = record {
  triage = some (triaged risky);
  review = none;
  escalated = true;
  budget_hit = true;
}

stops : (route world gateway (event []) (triaged risky) spent).0 ≡ ok stopped
unfolding route should_escalate budget_exhausted str_eq
stops = refl
