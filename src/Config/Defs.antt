-- ===== src/Config/Defs.antt =====
-- krennic/internal/config/config.go.
use director_orson_callan_kr.Base.{
  Bytes, Bool, true, false, ◌&&◌, ◌||◌, not, Option, none, some, List, [], ◌∷◌, ◌++◌, map, ℤ, pos,
  is_zero, str_eq, has_prefix, drop, utf8, if◌then◌else◌,
}
use director_orson_callan_kr.Model.{Float64}

pub record HubConfig : Type 0 where
  pub url : Bytes
  pub token_identity : Bytes
  pub listen_addr : Bytes
  pub db_path : Bytes

pub record AgentConfig : Type 0 where
  pub watch_roots : List Bytes
  pub debounce_ms : ℤ
  pub max_wait_ms : ℤ
  pub dashboard_addr : Bytes
  pub ai_workers : ℤ

pub record RepoConfig : Type 0 where
  pub path : Bytes
  pub enabled : Bool
  pub remote_url : Bytes

pub record RedactionConfig : Type 0 where
  pub deny : List Bytes
  pub scan_regex : Bool

pub record GitConfig : Type 0 where
  pub provider : Bytes
  pub remote_url : Bytes
  pub shadow_namespace : Bytes
  pub retain_snapshots : ℤ
  pub identity : Bytes
  pub ssh_key_path : Bytes

pub record StageConfig : Type 0 where
  pub provider : Bytes
  pub model : Bytes

pub record RoutingConfig : Type 0 where
  pub escalate_categories : List Bytes
  pub escalate_line_threshold : ℤ

pub record AiConfig : Type 0 where
  pub triage : StageConfig
  pub review : StageConfig
  pub routing : RoutingConfig
  pub fallback : Bytes

pub record BudgetConfig : Type 0 where
  pub daily_usd : Float64

pub record StatusConfig : Type 0 where
  pub enabled : Bool
  pub provider : Bytes
  pub identity : Bytes

pub record TelemetryConfig : Type 0 where
  pub enabled : Bool
  pub otlp_endpoint : Bytes

pub record Config : Type 0 where
  pub agent : AgentConfig
  pub repos : List RepoConfig
  pub redaction : RedactionConfig
  pub git : GitConfig
  pub ai : AiConfig
  pub budget : BudgetConfig
  pub status : StatusConfig
  pub telemetry : TelemetryConfig
  pub hub : HubConfig

-- The home directory (`none` where `os.UserHomeDir` fails), `filepath.Join` of two texts, whether a
-- file is there, the TOML decoder, which fills a configuration in place also where it fails, and
-- the quoting of `%q`.
pub record System : Type 0 where
  pub home : Option Bytes
  pub join_path : Bytes → Bytes → Bytes
  pub stat : Bytes → Option Bytes
  pub decode_file : Bytes → Config → Config × Option Bytes
  pub quote : Bytes → Bytes

module _ (sys : System) where
  unfoldable pub expand_home : Bytes → Bytes
  expand_home p =
      if str_eq p (utf8 "~") || has_prefix p (utf8 "~/")
      then (elim sys.home [
        | none ↦ p
        | some home ↦ if str_eq p (utf8 "~") then home else sys.join_path home (drop 2 p)
      ])
      else p

  -- 5.0 is written by its IEEE 754 bits.
  unfoldable pub default : Config
  unfolding expand_home
  default = record {
    agent = record {
      watch_roots = expand_home (utf8 "~/code") ∷ [];
      debounce_ms = pos 800;
      max_wait_ms = pos 5000;
      dashboard_addr = utf8 "127.0.0.1:7373";
      ai_workers = pos 2;
    };
    repos = [];
    redaction = record {
      deny = utf8 ".env*" ∷ utf8 "*.pem" ∷ utf8 "*.key" ∷ utf8 "id_rsa*" ∷ utf8 "secrets/**" ∷ [];
      scan_regex = true;
    };
    git = record {
      provider = utf8 "github";
      remote_url = [];
      shadow_namespace = utf8 "refs/ai";
      retain_snapshots = pos 5;
      identity = utf8 "git-shadow";
      ssh_key_path = [];
    };
    ai = record {
      triage = record { provider = utf8 "anthropic"; model = utf8 "claude-haiku-4-5-20251001" };
      review = record { provider = utf8 "anthropic"; model = utf8 "claude-sonnet-5" };
      routing = record {
        escalate_categories = utf8 "security" ∷ utf8 "logic" ∷ utf8 "test-gap" ∷ [];
        escalate_line_threshold = pos 80;
      };
      fallback = [];
    };
    budget = record { daily_usd = 0x4014000000000000 };
    status = record { enabled = false; provider = utf8 "github"; identity = utf8 "status-token" };
    telemetry = record { enabled = true; otlp_endpoint = [] };
    hub = record {
      url = [];
      token_identity = utf8 "hub-token";
      listen_addr = utf8 ":8787";
      db_path = [];
    };
  }

  abbrev pub or_default : ℤ → ℤ → ℤ
  or_default n d = if is_zero n then d else n

  unfoldable pub normalize : Config → Config
  unfolding expand_home
  normalize c = record c {
    agent = record c.agent {
      watch_roots = map expand_home c.agent.watch_roots;
      debounce_ms = or_default c.agent.debounce_ms (pos 800);
      max_wait_ms = or_default c.agent.max_wait_ms (pos 5000);
      ai_workers = or_default c.agent.ai_workers (pos 2);
    };
    repos = map (λ (r : RepoConfig). record r { path = expand_home r.path }) c.repos;
    git = record c.git {
      shadow_namespace =
          if str_eq c.git.shadow_namespace [] then utf8 "refs/ai" else c.git.shadow_namespace;
      retain_snapshots = or_default c.git.retain_snapshots (pos 5);
    };
  }

  is_empty {ℓ} : {A : Type ℓ} → List A → Bool
  is_empty [] = true
  is_empty (x ∷ xs) = false

  -- The error of Validate, `none` for nil.
  unfoldable pub validate : Config → Option Bytes
  unfolding is_empty
  validate c =
      if is_empty c.agent.watch_roots && is_empty c.repos
      then some (utf8 "no watch_roots and no repos configured — nothing to watch")
      else if not (str_eq c.git.provider (utf8 "github"))
          && not (str_eq c.git.provider (utf8 "gitlab"))
      then some
          (utf8 "git_transport.provider must be github or gitlab, got " ++ sys.quote c.git.provider)
      else if not (has_prefix c.git.shadow_namespace (utf8 "refs/"))
      then some (
          utf8 "git_transport.shadow_namespace must start with refs/, got "
          ++ sys.quote c.git.shadow_namespace)
      else none

  -- Load behind the decoder.
  unfoldable pub decoded : Bytes → Config × Option Bytes → Config × Option Bytes
  decoded path (c, some e) = (c, some (utf8 "parse config " ++ (path ++ (utf8 ": " ++ e))))
  decoded path (c, none) = (normalize c, validate (normalize c))

  -- Load: the configuration and the error.
  unfoldable pub load : Bytes → Config × Option Bytes
  load path = elim (sys.stat path) [
    | some e ↦ (default, some (utf8 "config not found at " ++ (path ++ (utf8 ": " ++ e))))
    | none ↦ decoded path (sys.decode_file path default)
  ]
