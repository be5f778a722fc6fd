-- ===== src/Agent/New.antt =====
-- krennic/internal/agent/agent.go and helpers.go: what New makes a daemon of, and the names of the
-- user and the machine. The store that New opens is not here.
use director_orson_callan_kr.Base.{
  Bytes, Bool, Option, none, some, List, [], ◌∷◌, ◌++◌, Result, ok, err, ◌==◌, ◌||◌, str_eq, utf8,
  if◌then◌else◌,
}
use director_orson_callan_kr.Model.{Developer}
use director_orson_callan_kr.Config.Defs.{Config}
use director_orson_callan_kr.Secrets.{Keyring, resolve}
use director_orson_callan_kr.Redact.{new_redactor}
use director_orson_callan_kr.Git.Tree.{default_diff_options, text_or}
use director_orson_callan_kr.Change.Defs.{Builder}
use director_orson_callan_kr.Status.Defs.{Web, Publisher, new_publisher}
use director_orson_callan_kr.Hub.Client.{Client, new_client}
use director_orson_callan_kr.Sql.Table.{Table}
use director_orson_callan_kr.Agent.Startup.{Disk, sanitize, resolve_repos, resolve_remotes}

-- The machine: the name of the current user, USER, and the name of the host.
pub record Machine : Type 0 where
  pub current_user : Option Bytes
  pub user_variable : Bytes
  pub host : Option Bytes

-- The text behind the last slash or backslash.
unfoldable pub behind_slash : Bytes → Bytes → Bytes
behind_slash name [] = name
behind_slash name (c ∷ s) = behind_slash (if c == b'/' || c == b'\\' then s else name) s

unfoldable pub variable_slug : Bytes → Bytes
unfolding sanitize str_eq
variable_slug v = if str_eq v [] then utf8 "user" else sanitize v

unfoldable pub named_slug : Bytes → Option Bytes → Bytes
unfolding behind_slash sanitize str_eq variable_slug
named_slug v none = variable_slug v
named_slug v (some name) =
    if str_eq name [] then variable_slug v else sanitize (behind_slash name name)

unfoldable pub user_slug : Machine → Bytes
unfolding named_slug
user_slug m = named_slug m.user_variable m.current_user

unfoldable pub hostname : Machine → Bytes
hostname m = elim m.host [ none ↦ utf8 "unknown-host" | some h ↦ h ]

abbrev pub no_providers : Bytes
no_providers = utf8 "no AI providers configured (set anthropic/gemini keys or install claude CLI)"

-- A provider whose key is there, on those so far.
unfoldable pub add_keyed : Bytes → Result Bytes → List (Bytes × Bytes) → List (Bytes × Bytes)
unfolding str_eq
add_keyed name (err e) providers = providers
add_keyed name (ok key) providers =
    if str_eq key [] then providers else providers ++ ((name, key) ∷ [])

abbrev checked : List (Bytes × Bytes) → List (Bytes × Bytes) × Option Bytes
checked [] = ([], some no_providers)
checked (p ∷ ps) = (p ∷ ps, none)

-- What New has made: the developer, the builder, the providers with their keys, the publisher of
-- statuses and the client of the hub, if there is one, and the roots with their remotes.
pub record Parts : Type 0 where
  pub developer : Developer
  pub builder : Builder
  pub providers : List (Bytes × Bytes)
  pub publisher : Option Publisher
  pub hub_client : Option Client
  pub repos : List Bytes
  pub remotes : Table Bytes

module _ {S : Type 0} (keyring : Keyring S) where
  -- buildProviders: the providers, and the error if there is none. The CLI needs no key.
  unfoldable pub build_providers : Bool → S → (List (Bytes × Bytes) × Option Bytes) × S
  unfolding resolve add_keyed
  build_providers cli_available g =
      let cli : List (Bytes × Bytes) = if cli_available then (utf8 "claude-cli", []) ∷ [] else [] in
      let (anthropic, g1) = resolve keyring (utf8 "anthropic") g in
      let (gemini, g2) = resolve keyring (utf8 "gemini") g1 in
      (checked (add_keyed (utf8 "gemini") gemini (add_keyed (utf8 "anthropic") anthropic cli)), g2)

  abbrev made : Result Publisher → Option Publisher
  made (ok p) = some p
  made (err e) = none

  abbrev with_token : Web → Bytes → Result Bytes → Option Publisher
  with_token web provider (err e) = none
  with_token web provider (ok token) = made (new_publisher web provider token)

  unfoldable pub build_publisher : Web → Config → S → Option Publisher × S
  unfolding resolve new_publisher
  build_publisher web cfg g =
      if cfg.status.enabled
      then (let (token, g') = resolve keyring cfg.status.identity g in
          (with_token web cfg.status.provider token, g'))
      else (none, g)

  -- The secret's error is dropped.
  unfoldable pub build_hub_client : Config → S → Option Client × S
  unfolding resolve new_client text_or str_eq
  build_hub_client cfg g =
      if str_eq cfg.hub.url []
      then (none, g)
      else (let (token, g') = resolve keyring cfg.hub.token_identity g in
          (some (new_client cfg.hub.url (text_or [] token)), g'))

  -- New behind Open.
  unfoldable pub new_parts : Machine → Web → Disk → Bool → Config → S → Parts × S
  unfolding user_slug hostname build_providers build_publisher build_hub_client resolve_repos
      resolve_remotes new_redactor
  new_parts m web disk cli_available cfg g =
      let slug = user_slug m in
      let dev : Developer = record {
        user_slug = slug;
        git_name = slug;
        git_email = [];
        machine = hostname m;
        os_user = slug;
      } in
      let ((providers, warning), g1) = build_providers cli_available g in
      let (publisher, g2) = build_publisher web cfg g1 in
      let (hub_client, g3) = build_hub_client cfg g2 in
      let repos = resolve_repos disk cfg in
      (
        record {
          developer = dev;
          builder = record {
            developer = dev;
            redactor = new_redactor cfg.redaction.deny cfg.redaction.scan_regex;
            namespace = cfg.git.shadow_namespace;
            diff_options = default_diff_options;
          };
          providers = providers;
          publisher = publisher;
          hub_client = hub_client;
          repos = repos;
          remotes = resolve_remotes disk cfg repos;
        },
        g3,
      )
