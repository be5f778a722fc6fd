-- ===== src/Cmd/Typed.antt =====
-- What `krennic keys set` leaves in the keyring.
use director_orson_callan_kr.Base.{
  Bytes, ◌≡◌, refl, [], lift, ◌>>=◌, false, Result, ok, err, arith, str_eq, trim_space,
}
use director_orson_callan_kr.Secrets.{Keyring, service, store, resolve}
use director_orson_callan_kr.Cmd.Console.{read_secret}
use director_orson_callan_kr.Cmd.Keys.{store_value, keys_set}

module _ {S : Type 0} (k : Keyring S) (name : Bytes) (g : S) (trimmed : trim_space name ≡ name)
    (keeps : (value : Bytes)
      → (k.set service name value g).0 ≡ ok tt
      → (k.get service name (k.set service name value g).1).0 ≡ ok value) where
  store_value-resolve :
      (val text : Bytes)
      → (store_value k name val g).0 ≡ ok text
      → (str_eq val [] ≡ false) × ((resolve k name (store_value k name val g).1).0 ≡ ok val)
  unfolding store_value store resolve
  store_value-resolve val text h = ground (arith, h, trimmed, keeps val)

  behind_read :
      (r : Result Bytes) (text : Bytes)
      → ((lift r >>= store_value k name) g).0 ≡ ok text
      → (val : Bytes) × (r ≡ ok val)
        × (str_eq val [] ≡ false)
        × ((resolve k name ((lift r >>= store_value k name) g).1).0 ≡ ok val)
  behind_read (err e) text h = cc
  behind_read (ok val) text h =
      let (given, found) = store_value-resolve val text h in (val, refl, given, found)

-- When `krennic keys set` reports no error, the value that was typed, without the line's end, is not
-- empty, and Resolve of the name gives it. The name has no white space at its ends, and the keyring
-- gives back what it took.
pub keys_set-resolve :
    {S : Type 0} (k : Keyring S) (input : Result Bytes) (name text : Bytes) (g : S)
    → trim_space name ≡ name
    → ((value : Bytes)
        → (k.set service name value g).0 ≡ ok tt
        → (k.get service name (k.set service name value g).1).0 ≡ ok value)
    → (keys_set k input name g).0 ≡ ok text
    → (val : Bytes) × (read_secret input ≡ ok val)
      × (str_eq val [] ≡ false)
      × ((resolve k name (keys_set k input name g).1).0 ≡ ok val)
unfolding keys_set
keys_set-resolve k input name text g trimmed keeps h =
    behind_read k name g trimmed keeps (read_secret input) text h
