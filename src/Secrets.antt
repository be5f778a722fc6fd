-- ===== src/Secrets.antt =====
-- krennic/internal/secrets/secrets.go over a keyring with an effect of its own.
use director_orson_callan_kr.Base.{
  Bytes, Bool, true, false, [], ◌++◌, Result, ok, err, Exec, raise, map_err, str_eq, utf8,
  trim_space, if◌then◌else◌,
}

-- The keyring of the operating system, and the verb %q.
pub record Keyring (S : Type 0) : Type 0 where
  pub set : Bytes → Bytes → Bytes → Exec S (Unit {0})
  pub get : Bytes → Bytes → Exec S Bytes
  pub delete : Bytes → Bytes → Exec S (Unit {0})
  pub quote : Bytes → Bytes

abbrev pub service : Bytes
service = utf8 "com.acme.krennic"

unfoldable pub is_found : Result Bytes → Bool
is_found (ok v) = true
is_found (err e) = false

module _ {S : Type 0} (k : Keyring S) where
  abbrev pub named : Bytes → Bytes → Bytes → Bytes
  named what name e = what ++ (utf8 " secret " ++ (k.quote name ++ (utf8 ": " ++ e)))

  unfoldable pub store : Bytes → Bytes → Exec S (Unit {0})
  unfolding trim_space
  store untrimmed value =
      let name = trim_space untrimmed in
      if str_eq name []
      then raise (utf8 "secret name is empty")
      else map_err (named (utf8 "store") name) (k.set service name value)

  unfoldable pub resolve : Bytes → Exec S Bytes
  resolve name =
      map_err
        (λ e.
          utf8 "resolve secret "
          ++ (k.quote name ++ (utf8 " (run `krennic keys set " ++ (name ++ (utf8 "`): " ++ e)))))
        (k.get service name)

  unfoldable pub has : Bytes → S → Bool × S
  unfolding is_found
  has name s = let (r, s') = k.get service name s in (is_found r, s')

  unfoldable pub delete : Bytes → Exec S (Unit {0})
  delete name = map_err (named (utf8 "delete") name) (k.delete service name)
