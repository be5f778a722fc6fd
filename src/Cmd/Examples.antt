-- ===== src/Cmd/Examples.antt =====
-- The commands of krennic/cmd/krennic at small servers.
use director_orson_callan_kr.Base.{
  ℕ, Bytes, ◌≡◌, refl, false, none, some, [], ◌∷◌, ◌++◌, Result, ok, err, arith, str_eq, has_prefix,
  utf8, trim_space, pos, if◌then◌else◌, ltb, ◌==◌, ◌+◌, ◌*◌,
}
use director_orson_callan_kr.Sql.{Conn, exec}
use director_orson_callan_kr.Git.Tree.{text_or}
use director_orson_callan_kr.Secrets.{Keyring, service, store, resolve}
use director_orson_callan_kr.Model.{Time}
use director_orson_callan_kr.Ai.Prompts.{decimal}
use director_orson_callan_kr.Config.Defs.{Config, default, normalize, decoded, validate}
use director_orson_callan_kr.Hub.Log.{
  HubDb, Detail, no_detail, prev_hash_broken, entry_hash_broken, verify,
}
use director_orson_callan_kr.Hub.Client.{Request}
use director_orson_callan_kr.Hub.Server.{Server, handler}
use director_orson_callan_kr.Hub.Samples.{hub, codec, start}
use director_orson_callan_kr.Agent.Defs.{is_paused}
use director_orson_callan_kr.Agent.Samples.{idle}
use director_orson_callan_kr.Cmd.Http.{Call, daemon_base}
use director_orson_callan_kr.Cmd.Samples.{plain, cli, to_daemon, daemon_90}
use director_orson_callan_kr.Cmd.Team
use director_orson_callan_kr.Cmd.Team.{VerifyAnswer, audit_hub}
use director_orson_callan_kr.Cmd.Verified.{served, detail_text}
use director_orson_callan_kr.Cmd.PauseSent.{daemon, post_call, taken_seconds, pause_cmd-paused}
use director_orson_callan_kr.Cmd.Console.{read_secret, pause_seconds, pause_cmd, pause_line}
use director_orson_callan_kr.Cmd.Keys.{keys_set}
use director_orson_callan_kr.Cmd.Typed.{keys_set-resolve}

-- A keyring with one place, which holds the value under the last name.
abbrev drawer : Keyring (Bytes × Bytes)
drawer = record {
  set = λ place name value g. (ok tt, (name, value));
  get = λ place name g. if str_eq g.0 name then (ok g.1, g) else (err (utf8 "not found"), g);
  delete = λ place name g. (ok tt, ([], []));
  quote = λ s. s;
}

abbrev typed : Result Bytes
typed = ok (utf8 "s3cret\r\n")

drawer_keeps :
    (value : Bytes)
    → (drawer.set service (utf8 "gemini") value ([], [])).0 ≡ ok tt
    → (drawer.get service (utf8 "gemini") (drawer.set service (utf8 "gemini") value ([], [])).1).0
      ≡ ok value
unfolding str_eq
drawer_keeps value h = refl

types_gemini :
    (keys_set drawer typed (utf8 "gemini") ([], [])).0 ≡ ok (utf8 "Uloženo do keychainu: gemini\n")
unfolding keys_set store
types_gemini = refl

gemini_trimmed : trim_space (utf8 "gemini") ≡ utf8 "gemini"
unfolding trim_space
gemini_trimmed = refl

keys_set-resolve_example :
    (val : Bytes) × (read_secret typed ≡ ok val)
    × (str_eq val [] ≡ false)
    × ((resolve drawer (utf8 "gemini") (keys_set drawer typed (utf8 "gemini") ([], [])).1).0
        ≡ ok val)
keys_set-resolve_example =
    keys_set-resolve drawer typed (utf8 "gemini") (utf8 "Uloženo do keychainu: gemini\n") ([], [])
      gemini_trimmed drawer_keeps types_gemini

pause_arrives :
    (s : Bytes)
    → ((to_daemon
          (utf8 "/api/pause")
          (post_call (daemon_base plain [] ++ (utf8 "/api/pause?seconds=" ++ s)))).target
        ≡ utf8 "/api/pause")
      × ((to_daemon
              (utf8 "/api/pause")
              (post_call (daemon_base plain [] ++ (utf8 "/api/pause?seconds=" ++ s)))).query
            (utf8 "seconds")
          ≡ s)
unfolding daemon_base default normalize decoded validate has_prefix
pause_arrives s = (refl, refl)

asks_90 : pause_seconds cli (some (utf8 "90s")) ≡ ok (pos 90)
unfolding pause_seconds
asks_90 = refl

reads_90 : daemon_90.console.atoi (decimal 90) ≡ some 90
unfolding decimal str_eq
reads_90 = refl

pause_cmd-paused_example :
    ((pause_cmd cli
        (daemon daemon_90 7 (to_daemon (utf8 "/api/pause")))
        plain
        []
        (some (utf8 "90s"))
        idle).0
      ≡ ok (pause_line (pos 90)))
    × ((later : Time)
        → is_paused daemon_90 later
            (pause_cmd cli
              (daemon daemon_90 7 (to_daemon (utf8 "/api/pause")))
              plain
              []
              (some (utf8 "90s"))
              idle).1
          ≡ ltb later (7 + taken_seconds 90 * 1_000_000_000))
pause_cmd-paused_example =
    pause_cmd-paused daemon_90 7 (to_daemon (utf8 "/api/pause")) cli plain [] (some (utf8 "90s")) 90
      idle asks_90 pause_arrives reads_90 (omega arith)

-- The command and the hub agree on the answer of /api/verify, as four numbers.
abbrev detail_code : Detail → ℕ
detail_code no_detail = 0
detail_code prev_hash_broken = 1
detail_code entry_hash_broken = 2

abbrev detail_at : ℕ → Bytes
detail_at n =
    if n == 0
    then []
    else if n == 1
    then detail_text prev_hash_broken
    else detail_text entry_hash_broken

abbrev numbered : Server
numbered = record hub {
  codec = record codec {
    encode_verify =
        λ v. (if v.ok_chain then 1 else 0) ∷ v.count ∷ v.broken_seq ∷ detail_code v.detail ∷ [];
  };
}

abbrev answer_at : Bytes → Result VerifyAnswer
answer_at (a ∷ b ∷ c ∷ d ∷ s) =
    ok (record { is_ok = a == 1; count = b; broken_seq = c; detail = detail_at d })
answer_at _ = err (utf8 "EOF")

abbrev reader : Team.Library
reader = record {
  decode_feed = λ s. ok [];
  decode_verify = answer_at;
  pad = λ n s. s;
  local_time = λ layout s. none;
}

-- A keychain with the hub's token.
abbrev keychain : Keyring (Conn HubDb)
keychain = record {
  set = λ place name value c. (ok tt, c);
  get = λ place name c. (ok (utf8 "t0k"), c);
  delete = λ place name c. (ok tt, c);
  quote = λ s. s;
}

abbrev to_hub : Call → Request
to_hub call = record {
  method = call.method;
  target = utf8 "/api/verify";
  authorization = call.authorization;
  query = λ key. [];
  body = [];
}

abbrev team : Config
team = record (default plain) { hub = record (default plain).hub { url = utf8 "http://h:8787" } }

says_intact :
    (audit_hub reader (served numbered 3 to_hub) keychain team start).0
    ≡ ok (utf8 "✓ Audit neporušen — 0 záznamů, řetězec sedí.\n")
unfolding audit_hub default handler verify exec str_eq text_or
says_intact = refl
