-- ===== src/Cmd/Team.antt =====
-- krennic/cmd/krennic/hub.go: the settings of the hub server, and the commands that ask a hub.
use director_orson_callan_kr.Base.{
  ℕ, Bytes, Bool, not, Option, none, some, List, [], ◌∷◌, ◌++◌, Result, Exec, pure, raise, try_exec,
  ◌>>=◌, ℤ, length, str_eq, utf8, if◌then◌else◌,
}
use director_orson_callan_kr.Ai.Prompts.{decimal}
use director_orson_callan_kr.Config.Defs.{Config, System, load}
use director_orson_callan_kr.Secrets.{Keyring, resolve}
use director_orson_callan_kr.Git.Tree.{text_or}
use director_orson_callan_kr.Cmd.Http.{Transport, itoa, cut, nz, get_json_auth}
use director_orson_callan_kr.Cmd.Console.{line, columns, no_changes}

-- The flags of `krennic hub`.
pub record HubFlags : Type 0 where
  pub addr : Bytes
  pub db_path : Bytes
  pub token : Bytes

-- feedEntry, with the members that are read.
pub record FeedEntry : Type 0 where
  pub received_at : Bytes
  pub user_slug : Bytes
  pub git_name : Bytes
  pub repo : Bytes
  pub branch : Bytes
  pub files : List Bytes
  pub relevance : Bytes
  pub verdict : Bytes

-- The answer of /api/verify.
pub record VerifyAnswer : Type 0 where
  pub is_ok : Bool
  pub count : ℕ
  pub broken_seq : ℕ
  pub detail : Bytes

-- The decoders, `%-16s` and the like, and a time of RFC 3339 in a layout of the local zone.
pub record Library : Type 0 where
  pub decode_feed : Bytes → Result (List FeedEntry)
  pub decode_verify : Bytes → Result VerifyAnswer
  pub pad : ℕ → Bytes → Bytes
  pub local_time : Bytes → Bytes → Option Bytes

unfoldable pub first_of : Bytes → Bytes → Bytes → Bytes
unfolding str_eq
first_of a b default = if not (str_eq a []) then a else if not (str_eq b []) then b else default

module _ {S : Type 0} (keyring : Keyring S) where
  -- A secret whose error is dropped.
  unfoldable pub secret_or_empty : Bytes → Exec S Bytes
  unfolding resolve
  secret_or_empty name = do r ← try_exec (resolve keyring name); pure (text_or [] r)

  -- The token of the hub: the flag, else the environment, else the keychain.
  unfoldable pub hub_token : Bytes → Bytes → Bytes → Exec S Bytes
  unfolding secret_or_empty str_eq
  hub_token flag env identity =
      if not (str_eq flag [])
      then pure flag
      else if not (str_eq env [])
      then pure env
      else if not (str_eq identity [])
      then secret_or_empty identity
      else pure []

  -- The address, the path of the database and the token that `krennic hub` starts with. The default
  -- database stands beside the configuration.
  unfoldable pub hub_settings : HubFlags → Config → Bytes → Bytes → Exec S HubFlags
  unfolding first_of hub_token
  hub_settings flags cfg env default_db = do
    token ← hub_token flags.token env cfg.hub.token_identity
    pure (record {
      addr = first_of flags.addr cfg.hub.listen_addr (utf8 ":8787");
      db_path = first_of flags.db_path cfg.hub.db_path default_db;
      token = token;
    })

unfoldable pub file_column : List Bytes → Bytes
file_column [] = []
file_column (f ∷ []) = f
file_column (f ∷ g ∷ fs) = f ++ (utf8 " +" ++ decimal (length (g ∷ fs)))

-- The query of teamCmd; the filters are put in as they are.
unfoldable pub feed_url : Bytes → ℤ → Bytes → Bytes → Bytes
unfolding itoa str_eq
feed_url base limit user repo =
    let user_part = if str_eq user [] then [] else utf8 "&user=" ++ user in
    let repo_part = if str_eq repo [] then [] else utf8 "&repo=" ++ repo in
    base ++ (utf8 "/api/feed?limit=" ++ (itoa limit ++ (user_part ++ repo_part)))

abbrev pub intact_line : ℕ → Bytes
intact_line count =
    line (utf8 "✓ Audit neporušen — " ++ (decimal count ++ utf8 " záznamů, řetězec sedí."))

abbrev pub broken_line : ℕ → Bytes → Bytes
broken_line seq detail =
    line (utf8 "✗ AUDIT NARUŠEN u záznamu #" ++ (decimal seq ++ (utf8 ": " ++ detail)))

unfoldable pub verify_text : VerifyAnswer → Bytes
verify_text res = if res.is_ok then intact_line res.count else broken_line res.broken_seq res.detail

module _ (lib : Library) where
  unfoldable pub feed_line : List Bytes → Bytes
  unfolding columns
  feed_line cells = line (columns cells)

  abbrev time_column : Option Bytes → Bytes
  time_column none = []
  time_column (some t) = t

  unfoldable pub entry_line : FeedEntry → Bytes
  unfolding feed_line cut nz file_column
  entry_line e =
      let verdict = if str_eq e.verdict [] then e.relevance else e.verdict in
      feed_line (
        lib.pad 16 (time_column (lib.local_time (utf8 "02.01 15:04:05") e.received_at))
        ∷ lib.pad 14 (cut (nz e.git_name e.user_slug) 14)
        ∷ lib.pad 16 (cut e.repo 16)
        ∷ lib.pad 12 (cut e.branch 12)
        ∷ lib.pad 9 (cut (nz verdict (utf8 "—")) 9)
        ∷ file_column e.files
        ∷ [])

  unfoldable pub entry_lines : List FeedEntry → Bytes
  unfolding entry_line
  entry_lines [] = []
  entry_lines (e ∷ es) = entry_line e ++ entry_lines es

  unfoldable pub team_text : List FeedEntry → Bytes
  unfolding entry_lines feed_line
  team_text [] = no_changes
  team_text (e ∷ es) =
      feed_line (
        lib.pad 16 (utf8 "ČAS")
        ∷ lib.pad 14 (utf8 "KDO")
        ∷ lib.pad 16 (utf8 "REPO")
        ∷ lib.pad 12 (utf8 "BRANCH")
        ∷ lib.pad 9 (utf8 "VERDIKT")
        ∷ utf8 "SOUBORY"
        ∷ [])
      ++ entry_lines (e ∷ es)

  module _ {S : Type 0} (transport : Transport S) (keyring : Keyring S) where
    -- A command behind the configuration and the test of the hub's URL.
    abbrev with_hub : Bytes → (Config → Exec S Bytes) → Config × Option Bytes → Exec S Bytes
    with_hub missing body (cfg, some e) = raise e
    with_hub missing body (cfg, none) = if str_eq cfg.hub.url [] then raise missing else body cfg

    unfoldable pub team_hub : Bytes → Bytes → ℤ → Config → Exec S Bytes
    unfolding secret_or_empty feed_url get_json_auth team_text
    team_hub user repo limit cfg = do
      token ← secret_or_empty keyring cfg.hub.token_identity
      entries ← get_json_auth transport lib.decode_feed (feed_url cfg.hub.url limit user repo) token
      pure (team_text entries)

    unfoldable pub team_cmd : System → Bytes → Bytes → Bytes → ℤ → Exec S Bytes
    unfolding team_hub load str_eq
    team_cmd sys path user repo limit =
        with_hub (utf8 "v configu není [hub] url — nastav adresu hubu") (team_hub user repo limit)
          (load sys path)

    unfoldable pub audit_hub : Config → Exec S Bytes
    unfolding secret_or_empty get_json_auth verify_text
    audit_hub cfg = do
      token ← secret_or_empty keyring cfg.hub.token_identity
      res ← get_json_auth transport lib.decode_verify (cfg.hub.url ++ utf8 "/api/verify") token
      pure (verify_text res)

    -- `krennic audit verify`
    unfoldable pub audit_cmd : System → Bytes → Exec S Bytes
    unfolding audit_hub load str_eq
    audit_cmd sys path = with_hub (utf8 "v configu není [hub] url") audit_hub (load sys path)
