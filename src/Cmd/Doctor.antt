-- ===== src/Cmd/Doctor.antt =====
-- krennic/cmd/krennic/admin.go: the command doctor.
use director_orson_callan_kr.Base.{
  ℕ, Bytes, Bool, true, false, not, ◌&&◌, Option, none, some, List, [], ◌∷◌, ◌++◌, Result, ok, err,
  Exec, lift, try_exec, ◌>>=◌, ◌>>◌, ℤ, pos, negsuc, leb, ltb, ◌==◌, length, str_eq, utf8,
  if◌then◌else◌,
}
use director_orson_callan_kr.Ai.Prompts.{decimal}
use director_orson_callan_kr.Config.Defs.{Config, System, load}
use director_orson_callan_kr.Secrets.{Keyring, store, resolve, has, delete}
use director_orson_callan_kr.Git.Tree.{Repository}
use director_orson_callan_kr.Git.Version.{version}
use director_orson_callan_kr.Agent.Startup.{Disk, resolve_repos, resolve_remotes, override_of}
use director_orson_callan_kr.Cmd.Http.{itoa, status_of, bool_str, or_dash}
use director_orson_callan_kr.Cmd.Console.{line}
use director_orson_callan_kr.Cmd.Keys.{mark_of}

-- What doctor prints: a check with its name, its outcome and a detail, or another line.
pub data Item : Type 0 where
  checked : Bytes → Bool → Bytes → Item
  note : Bytes → Item

-- `%-28s` is `pad 28`.
unfoldable pub item_line : (ℕ → Bytes → Bytes) → Item → Bytes
item_line pad (checked name pass detail) =
    line (utf8 "  " ++ (mark_of pass ++ (utf8 " " ++ (pad 28 name ++ (utf8 " " ++ detail)))))
item_line pad (note text) = line text

unfoldable pub item_lines : (ℕ → Bytes → Bytes) → List Item → Bytes
unfolding item_line
item_lines pad [] = []
item_lines pad (i ∷ is) = item_line pad i ++ item_lines pad is

-- The variable `ok` behind the checks.
unfoldable pub all_pass : List Item → Bool
all_pass [] = true
all_pass (checked name pass detail ∷ is) = pass && all_pass is
all_pass (note text ∷ is) = all_pass is

-- 2 <= n, and n < 51.
abbrev at_least_two : ℤ → Bool
at_least_two (pos n) = leb 2 n
at_least_two (negsuc n) = false

abbrev is_two : ℤ → Bool
is_two (pos n) = n == 2
is_two (negsuc n) = false

abbrev below_51 : ℤ → Bool
below_51 (pos n) = ltb n 51
below_51 (negsuc n) = true

unfoldable pub git_items : ℤ × ℤ → List Item
unfolding itoa
git_items (maj, min) =
    let check = checked (utf8 "git") (at_least_two maj) (itoa maj ++ (utf8 "." ++ itoa min)) in
    if is_two maj && below_51 min
    then check
      ∷ note (utf8 "      → git < 2.51: použije se univerzální commit-tree transport (OK)")
      ∷ []
    else check ∷ []

unfoldable pub remote_items : (Bytes → Bytes) → List Bytes → List Item
unfolding or_dash
remote_items url_of [] = []
remote_items url_of (r ∷ rs) =
    note (utf8 "      - " ++ (r ++ (utf8 "  → ai-remote: " ++ or_dash (url_of r))))
    ∷ remote_items url_of rs

abbrev is_none : Option Bytes → Bool
is_none none = true
is_none (some e) = false

-- The error of a call.
abbrev error_of : Result Bytes → Option Bytes
error_of (ok v) = none
error_of (err e) = some e

module _ {S : Type 0} (k : Keyring S) where
  -- Store, Resolve and Delete of the probe, and the error of the first two.
  unfoldable pub probe_keychain : Exec S Bytes
  unfolding store resolve delete
  probe_keychain = do
    let probe : Bytes = utf8 "doctor-probe"
    store k probe (utf8 "ok")
    value ← try_exec (resolve k probe)
    try_exec (delete k probe)
    lift value

  unfoldable pub key_item : Bytes → Bytes → S → Item × S
  unfolding has bool_str
  key_item label name g =
      let (found, g1) = has k name g in
      let (shown, g2) = has k name g1 in
      (checked label found (bool_str shown (utf8 "nastaven") (utf8 "chybí")), g2)

  unfoldable pub hub_item : Config → S → Item × S
  unfolding has bool_str str_eq
  hub_item cfg g =
      if not (str_eq cfg.hub.url [])
      then (let (found, g1) = has k cfg.hub.token_identity g in
          let (shown, g2) = has k cfg.hub.token_identity g1 in
          let token = bool_str shown (utf8 " (token ✓)") (utf8 " (token chybí!)") in
          (checked (utf8 "hub reporting") found (cfg.hub.url ++ token), g2))
      else (checked (utf8 "hub reporting") true (utf8 "vypnuto (lokální režim)"), g)

  unfoldable pub config_items : Disk → Config × Option Bytes → S → List Item × S
  unfolding status_of hub_item remote_items override_of resolve_repos resolve_remotes bool_str
  config_items disk (cfg, some e) g = (checked (utf8 "config") false (status_of (some e)) ∷ [], g)
  config_items disk (cfg, none) g =
      let repos = resolve_repos disk cfg in
      let remotes = resolve_remotes disk cfg repos in
      let publishing = bool_str cfg.status.enabled (utf8 "zapnuto") (utf8 "vypnuto (opt-in)") in
      let (hub, g') = hub_item cfg g in
      (
        (checked (utf8 "config") true (status_of none)
              ∷ checked (utf8 "repozitáře") (ltb 0 (length repos))
                  (decimal (length repos) ++ utf8 " nalezeno")
              ∷ remote_items (override_of disk cfg remotes) repos)
            ++ (checked (utf8 "status publishing") true publishing ∷ hub ∷ []),
        g',
      )

  -- doctor: the checks in their order.
  unfoldable pub doctor_items : Repository → Bool → System → Bytes → Disk → S → List Item × S
  unfolding git_items probe_keychain key_item config_items version load
  doctor_items here cli_available sys path disk g =
      let (probed, g1) = probe_keychain g in
      let (anthropic, g2) = key_item (utf8 "provider: anthropic key") (utf8 "anthropic") g1 in
      let (gemini, g3) = key_item (utf8 "provider: gemini key") (utf8 "gemini") g2 in
      let (configured, g4) = config_items disk (load sys path) g3 in
      (
        git_items (version here)
            ++ (checked (utf8 "keychain") (is_none (error_of probed)) (status_of (error_of probed))
                ∷ checked (utf8 "provider: claude-cli") cli_available
                    (bool_str cli_available (utf8 "na PATH") (utf8 "nenalezen"))
                ∷ anthropic
                ∷ gemini
                ∷ configured),
        g4,
      )

  unfoldable pub doctor_cmd :
      (ℕ → Bytes → Bytes) → Repository → Bool → System → Bytes → Disk → S → Bytes × S
  unfolding doctor_items item_lines all_pass
  doctor_cmd pad here cli_available sys path disk g =
      let (items, g') = doctor_items here cli_available sys path disk g in
      let last =
        if all_pass items
        then utf8 "Vše připraveno. Spusť `krennic run`."
        else utf8 "Některé kontroly selhaly — viz ✗ výše." in
      (item_lines pad items ++ (line [] ++ line last), g')
