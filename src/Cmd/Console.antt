-- ===== src/Cmd/Console.antt =====
-- krennic/cmd/krennic/commands.go: the commands that ask the daemon, and the reading of a secret.
use director_orson_callan_kr.Base.{
  ℕ, Bytes, Bool, Option, none, some, List, [], ◌∷◌, ◌++◌, Result, ok, err, Exec, pure, lift, ◌>>=◌,
  ◌>>◌, ◌||◌, ◌==◌, ℤ, pos, length, trim_right_by, utf8, if◌then◌else◌,
}
use director_orson_callan_kr.Ai.Prompts.{decimal}
use director_orson_callan_kr.Model.{Float64}
use director_orson_callan_kr.Config.Defs.{System}
use director_orson_callan_kr.Cmd.Http.{Transport, itoa, cut, daemon_base, get_json, post_url}
use director_orson_callan_kr.Cmd.Json.{Json, Fields, lookup, as_object, as_text, nested}

-- The answer of /api/status.
pub record DaemonStatus : Type 0 where
  pub running : Bool
  pub paused : Bool
  pub paused_until : Bytes
  pub repos : List Bytes
  pub queue_depth : ℤ
  pub spend_today : Float64
  pub budget : Float64

-- What the commands use of the standard library: the decoders of the answers, `%-8s` and the like,
-- `%.4f` and the like, `%q`, json.MarshalIndent, time.ParseDuration followed by `int(d.Seconds())`,
-- and a time of RFC 3339 in a layout of the local zone.
pub record Library : Type 0 where
  pub decode_status : Bytes → Result DaemonStatus
  pub decode_records : Bytes → Result (List Fields)
  pub decode_any : Bytes → Result Json
  pub pad : ℕ → Bytes → Bytes
  pub fixed : ℕ → Float64 → Bytes
  pub quote : Bytes → Bytes
  pub indent : Json → Bytes
  pub seconds : Bytes → Result ℤ
  pub local_time : Bytes → Bytes → Option Bytes

abbrev pub line : Bytes → Bytes
line s = s ++ utf8 "\n"

unfoldable pub repo_lines : List Bytes → Bytes
repo_lines [] = []
repo_lines (r ∷ rs) = line (utf8 "  - " ++ r) ++ repo_lines rs

abbrev pub no_changes : Bytes
no_changes = line (utf8 "(zatím žádné změny)")

-- Fields of a table with two blanks between them.
unfoldable pub columns : List Bytes → Bytes
columns [] = []
columns (c ∷ []) = c
columns (c ∷ d ∷ cs) = c ++ (utf8 "  " ++ columns (d ∷ cs))

-- A member of an object that is there as an object, and the dash if it is not.
unfoldable pub member_or_dash : Json → Bytes → Bytes
unfolding lookup
member_or_dash v k = elim (as_object v) [ none ↦ utf8 "—" | some m ↦ as_text (lookup k m) ]

abbrev pub pause_line : ℤ → Bytes
pause_line secs = line (utf8 "Pozastaveno na " ++ (itoa secs ++ utf8 " s"))

module _ (lib : Library) where
  unfoldable pub status_text : DaemonStatus → Bytes
  unfolding repo_lines itoa
  status_text s =
      let state = if s.paused then utf8 "PAUSED do " ++ s.paused_until else utf8 "RUNNING" in
      line (utf8 "Stav:        " ++ state)
      ++ (line (utf8 "Fronta:      " ++ itoa s.queue_depth)
          ++ (line (utf8 "Repozitáře:  " ++ decimal (length s.repos))
              ++ (line (
                    utf8 "Náklady dnes: $"
                    ++ (lib.fixed 4 s.spend_today ++ (utf8 " / $" ++ lib.fixed 2 s.budget)))
                  ++ repo_lines s.repos)))

  -- The columns are 8, 18, 8 and 9 wide.
  unfoldable pub record_line : Bytes → Bytes → Bytes → Bytes → Bytes → Bytes
  unfolding columns
  record_line ts repo triage verdict id =
      line
        (columns (lib.pad 8 ts ∷ lib.pad 18 repo ∷ lib.pad 8 triage ∷ lib.pad 9 verdict ∷ id ∷ []))

  unfoldable pub clock_of : Json → Bytes
  clock_of (Json.text u) = elim (lib.local_time (utf8 "15:04:05") u) [ none ↦ [] | some t ↦ t ]
  clock_of _ = []

  unfoldable pub recent_line : Fields → Bytes
  unfolding lookup nested member_or_dash clock_of record_line cut
  recent_line r =
      let ev = as_object (lookup (utf8 "event") r) in
      record_line (clock_of (lookup (utf8 "updated_at") r))
        (cut (nested ev (utf8 "repo" ∷ utf8 "name" ∷ [])) 18)
        (member_or_dash (lookup (utf8 "triage") r) (utf8 "relevance"))
        (member_or_dash (lookup (utf8 "review") r) (utf8 "verdict"))
        (cut (nested ev (utf8 "change_id" ∷ [])) 12)

  unfoldable pub recent_lines : List Fields → Bytes
  unfolding recent_line
  recent_lines [] = []
  recent_lines (r ∷ rs) = recent_line r ++ recent_lines rs

  unfoldable pub recent_text : List Fields → Bytes
  unfolding recent_lines record_line
  recent_text [] = no_changes
  recent_text (r ∷ rs) =
      record_line (utf8 "ČAS") (utf8 "REPO") (utf8 "TRIAGE") (utf8 "VERDIKT") (utf8 "CHANGE_ID")
      ++ recent_lines (r ∷ rs)

  abbrev bad_duration : Bytes → Bytes → Bytes
  bad_duration arg e = utf8 "neplatná doba " ++ (lib.quote arg ++ utf8 " (použij např. 30m, 1h)")

  -- The seconds that `pause` asks for; without an argument, an hour.
  unfoldable pub pause_seconds : Option Bytes → Result ℤ
  pause_seconds none = ok (pos 3600)
  pause_seconds (some arg) = elim (lib.seconds arg) [
    | ok secs ↦ ok secs
    | err e ↦ err (bad_duration arg e)
  ]

  module _ {S : Type 0} (transport : Transport S) (sys : System) (path : Bytes) where
    unfoldable pub status_cmd : Exec S Bytes
    unfolding status_text get_json daemon_base
    status_cmd = do
      s ← get_json transport lib.decode_status (daemon_base sys path ++ utf8 "/api/status")
      pure (status_text s)

    unfoldable pub recent_cmd : Exec S Bytes
    unfolding recent_text get_json daemon_base
    recent_cmd = do
      recs ←
          get_json transport lib.decode_records
            (daemon_base sys path ++ utf8 "/api/recent?limit=25")
      pure (recent_text recs)

    unfoldable pub show_cmd : Bytes → Exec S Bytes
    unfolding get_json daemon_base
    show_cmd id = do
      rec ←
          get_json transport lib.decode_any (daemon_base sys path ++ (utf8 "/api/record?id=" ++ id))
      pure (line (lib.indent rec))

    unfoldable pub pause_cmd : Option Bytes → Exec S Bytes
    unfolding pause_seconds post_url
    pause_cmd arg = do
      secs ← lift (pause_seconds arg)
      post_url transport (daemon_base sys path ++ (utf8 "/api/pause?seconds=" ++ itoa secs))
      pure (pause_line secs)

    unfoldable pub resume_cmd : Exec S Bytes
    unfolding post_url
    resume_cmd = do
      post_url transport (daemon_base sys path ++ utf8 "/api/resume")
      pure (line (utf8 "Obnoveno"))

-- readSecretStdin behind the prompt, on what ReadString gives up to a newline or the end of the
-- input, or its error.
unfoldable pub read_secret : Result Bytes → Result Bytes
unfolding trim_right_by
read_secret (ok input) = ok (trim_right_by (λ c. c == b'\r' || c == b'\n') input)
read_secret (err e) = err e
