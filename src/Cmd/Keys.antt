-- ===== src/Cmd/Keys.antt =====
-- krennic/cmd/krennic/admin.go: the keys command, over a keyring.
use director_orson_callan_kr.Base.{
  Bytes, Bool, true, false, List, [], ◌∷◌, ◌++◌, Result, Exec, pure, raise, lift, ◌>>=◌, ◌>>◌,
  str_eq, utf8, if◌then◌else◌,
}
use director_orson_callan_kr.Secrets.{Keyring, store, has, delete}
use director_orson_callan_kr.Cmd.Console.{line, read_secret}

abbrev pub known_secrets : List Bytes
known_secrets =
    utf8 "anthropic"
    ∷ utf8 "gemini"
    ∷ utf8 "git-shadow"
    ∷ utf8 "status-token"
    ∷ utf8 "hub-token"
    ∷ []

-- The mark of a check.
abbrev pub mark_of : Bool → Bytes
mark_of true = utf8 "✓"
mark_of false = utf8 "✗"

module _ {S : Type 0} (k : Keyring S) where
  -- `keys set`: the value that was read is stored.
  unfoldable pub store_value : Bytes → Bytes → Exec S Bytes
  unfolding str_eq
  store_value name val =
      if str_eq val []
      then raise (utf8 "prázdná hodnota")
      else (do store k name val; pure (line (utf8 "Uloženo do keychainu: " ++ name)))

  unfoldable pub keys_set : Result Bytes → Bytes → Exec S Bytes
  unfolding read_secret store_value
  keys_set input name = do val ← lift (read_secret input); store_value name val

  unfoldable pub list_secrets : List Bytes → S → Bytes × S
  unfolding has
  list_secrets [] g = ([], g)
  list_secrets (name ∷ names) g =
      let (found, g') = has k name g in
      let (lines, g'') = list_secrets names g' in
      (line (utf8 "  " ++ (mark_of found ++ (utf8 " " ++ name))) ++ lines, g'')

  -- `keys list`
  unfoldable pub keys_list : S → Bytes × S
  unfolding list_secrets
  keys_list g = list_secrets known_secrets g

  unfoldable pub keys_del : Bytes → Exec S Bytes
  unfolding delete
  keys_del name = do delete k name; pure (line (utf8 "Smazáno: " ++ name))
