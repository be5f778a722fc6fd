-- ===== src/Agent/Samples.antt =====
-- A small daemon and what it finds around it.
use director_orson_callan_kr.Base.{
  ◌+◌, Bytes, true, false, none, some, [], ◌∷◌, ok, err, utf8, ltb, leb, pos,
}
use director_orson_callan_kr.Model.{ChangeEvent, TriageResult, trivial, Developer}
use director_orson_callan_kr.Sql.{Conn}
use director_orson_callan_kr.Store.Schema.{Db, Library, empty_db}
use director_orson_callan_kr.Ai.Types.{Gateway, Environment}
use director_orson_callan_kr.Redact.{new_redactor}
use director_orson_callan_kr.Git.Tree.{default_diff_options}
use director_orson_callan_kr.Git.Shadow.{Runner}
use director_orson_callan_kr.Change.Defs.{Surroundings}
use director_orson_callan_kr.Telemetry.{new_metrics}
use director_orson_callan_kr.Agent.Defs.{World, Agent}
use director_orson_callan_kr.Hub.Client.{Request}
use director_orson_callan_kr.Agent.Console.{Console}

abbrev pub change : Bytes → ChangeEvent
change id = record {
  schema_version = utf8 "1.0";
  change_id = id;
  trace_id = utf8 "t";
  created_at = 5;
  developer = record {
    user_slug = utf8 "alice";
    git_name = [];
    git_email = [];
    machine = [];
    os_user = [];
  };
  repo = record {
    name = utf8 "svc";
    root_hint = utf8 "svc";
    remote = [];
    branch = utf8 "main";
    head_sha = [];
    shadow_ref = [];
    shadow_sha = [];
    local_path = [];
  };
  summary = record {
    files_changed = 1;
    lines_added = 2;
    lines_removed = 0;
    languages = [];
    redacted_paths = [];
    truncated = false;
  };
  diff = record { format = utf8 "unified"; context_lines = 3; hunks = [] };
  routing_hints = record { force_stage = []; budget_tier = utf8 "normal" };
  content_hash = utf8 "h";
}

abbrev pub plain : Library
plain = record {
  format_time = λ t. t ∷ [];
  parse_time = λ s. elim s [ [] ↦ none | t ∷ _ ↦ some t ];
  marshal_event = λ ev. ok ev.change_id;
  unmarshal_event = λ s. ok (change s);
  event_or_zero = change;
  marshal_triage = λ tr. tr.reason;
  unmarshal_triage = λ s. none;
  marshal_review = λ rv. rv.summary;
  unmarshal_review = λ s. none;
  add = λ a b. a + b;
}

abbrev pub triaged : TriageResult
triaged = record {
  change_id = utf8 "a";
  relevance = trivial;
  categories = [];
  escalate = false;
  reason = [];
  confidence = 0;
  provider = utf8 "p";
  model = utf8 "m";
  tokens = record { tokens_in = pos 1; tokens_out = pos 1 };
  cost_usd = 3;
}

abbrev pub environment : Environment
environment = record {
  answer = λ n key req. ok (record {
    text = utf8 "{}";
    tokens = record { tokens_in = pos 1; tokens_out = pos 1 };
    cost_usd = 3;
  });
  day = λ n. utf8 "2026-01-01";
  unmarshal_triage = λ s. ok triaged;
  unmarshal_review = λ s. err (utf8 "no review");
  float_lt = ltb;
  float_le = leb;
  triage_system_prompt = utf8 "triage";
  review_system_prompt = utf8 "review";
  quote = λ s. s;
}

abbrev pub gateway : Gateway (Conn Db)
gateway = record {
  providers = utf8 "p" ∷ [];
  name = λ key. key;
  triage = record { provider = utf8 "p"; model = utf8 "m" };
  review = record { provider = utf8 "p"; model = utf8 "m" };
  routing = record { escalate_categories = []; escalate_line_threshold = pos 80 };
  fallback = [];
  daily_usd = 5;
  sink = none;
}

abbrev pub developer : Developer
developer = record {
  user_slug = utf8 "ada";
  git_name = [];
  git_email = [];
  machine = utf8 "m";
  os_user = utf8 "ada";
}

abbrev pub surroundings : Surroundings
surroundings = record {
  regexp = record { match_string = λ re s. false; replace_all_string = λ re s t. t };
  digest = λ s. s;
  root = utf8 "/w/app";
  repo_name = utf8 "app";
  now = 5;
  format_rfc3339 = λ t. utf8 "now";
  change_id = utf8 "c1";
  trace_id = utf8 "t1";
  snapshot = λ msg. ok (utf8 "abc");
}

abbrev pub console : Console
console = record {
  encode_status = λ v. utf8 "status";
  encode_records = λ rs. utf8 "records";
  encode_record = λ r. utf8 "record";
  encode_pause = λ n. utf8 "paused";
  encode_resume = utf8 "resumed";
  atoi = λ s. none;
  format_rfc3339 = λ t. utf8 "now";
  day = λ t. utf8 "2026-01-01";
  dashboard = utf8 "page";
  repos = utf8 "/w/app" ∷ [];
  daily_usd = 5;
}

abbrev pub request : Bytes → Request
request target = record {
  method = utf8 "POST";
  target = target;
  authorization = [];
  query = λ key. [];
  body = [];
}

-- Git answers every command with nothing.
abbrev pub runner : Runner Unit
runner = record { run = λ env args g. (ok [], g); quote = λ s. s; ssh_key = [] }

abbrev pub small : World Unit
small = record {
  library = plain;
  floats = record {
    zero_float = 0;
    one_float = 1;
    plus = λ a b. a + b;
    divided = λ a b. a;
    is_positive_float = λ a. ltb 0 a;
    print = λ a. [];
  };
  of_nat = λ n. n;
  builder = record {
    developer = developer;
    redactor = new_redactor [] true;
    namespace = utf8 "refs/krennic";
    diff_options = default_diff_options;
  };
  repository = λ root. record { run = λ args. ok (utf8 "true"); read_file = λ path. none };
  surroundings = λ root. surroundings;
  gateway = gateway;
  environment = environment;
  remote_for = λ path. utf8 "git@h:a.git";
  runner = λ path. runner;
  hub = some (λ n payload. none);
  payload = λ rep. rep.report_id;
  elapsed_ms = λ now. now;
  console = console;
}

abbrev pub idle : Agent Unit
idle = record {
  conn = record { db = empty_db; faults = [] };
  metrics = new_metrics;
  git = tt;
  wake = 0;
  paused_until = 0;
  sent = [];
}
