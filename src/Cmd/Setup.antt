-- ===== src/Cmd/Setup.antt =====
-- krennic/cmd/krennic/admin.go: the commands gc and init-config. Of gc the two numbers that it
-- prints are the result; the lines on single refs are left out.
use Prim.Native.Nat.{◌%◌}
use director_orson_callan_kr.Base.{
  ℕ, suc, ◌+◌, ◌-◌, ◌*◌, Bytes, Bool, not, ◌&&◌, Option, none, some, ◌++◌, map, ok, err, Exec, pure,
  raise, ◌>>◌, ℤ, pos, negsuc, leb, utf8, if◌then◌else◌,
}
use director_orson_callan_kr.Model.{Time}
use director_orson_callan_kr.Sql.{Conn}
use director_orson_callan_kr.Store.Schema.{Db, Library}
use director_orson_callan_kr.Store.Records.{prune_older_than}
use director_orson_callan_kr.Config.Defs.{Config}
use director_orson_callan_kr.Git.Gc.{Root, gc_roots}
use director_orson_callan_kr.Agent.Startup.{Disk, resolve_repos}
use director_orson_callan_kr.Cmd.Console.{line}

-- 24 hours in nanoseconds, and the number of values of a Duration.
abbrev day_ns : ℕ
day_ns = 86_400_000_000_000

abbrev duration_values : ℕ
duration_values = 18_446_744_073_709_551_616

-- A number of days as a Duration, in two's complement.
unfoldable pub days_ns : ℤ → ℕ
days_ns (pos n) = n * day_ns % duration_values
days_ns (negsuc n) = (duration_values - suc n * day_ns % duration_values) % duration_values

-- time.Now().Add(-d)
unfoldable pub time_before : Time → ℕ → Time
time_before now d = if leb d 9_223_372_036_854_775_808 then now - d else now + (duration_values - d)

module _ {G : Type 0} (lib : Library) (root_of : Bytes → Root G) where
  -- The part of gc behind the pruning.
  unfoldable pub gc_pruned : Disk → Config → Bytes → ℕ → Exec (Conn Db × G) (ℕ × ℕ)
  unfolding gc_roots resolve_repos
  gc_pruned disk cfg user n (c, g) =
      let (deleted, g') =
        gc_roots cfg.git.shadow_namespace user (map root_of (resolve_repos disk cfg)) 0 g in
      (ok (n, deleted), (c, g'))

  -- gc on an open store: the numbers of pruned records and of deleted refs.
  unfoldable pub gc_open : Disk → Config → Bytes → Time → ℤ → Exec (Conn Db × G) (ℕ × ℕ)
  unfolding gc_pruned prune_older_than time_before days_ns
  gc_open disk cfg user now days (c, g) =
      let (pruned, c') = prune_older_than lib (time_before now (days_ns days)) c in
      elim pruned [ err e ↦ (err e, (c', g)) | ok n ↦ gc_pruned disk cfg user n (c', g) ]

  -- gc behind Load and Open, each with its error.
  unfoldable pub gc_cmd :
      Disk → Config × Option Bytes → Option Bytes → Bytes → Time → ℤ → Exec (Conn Db × G) (ℕ × ℕ)
  unfolding gc_open
  gc_cmd disk (cfg, some e) opened user now days = raise e
  gc_cmd disk (cfg, none) (some e) user now days = raise e
  gc_cmd disk (cfg, none) none user now days = gc_open disk cfg user now days

-- The calls of package os that init-config makes, filepath.Dir, and the embedded configuration.
pub record Files (S : Type 0) : Type 0 where
  pub exists : Bytes → S → Bool
  pub mkdir_all : Bytes → Exec S (Unit {0})
  pub write_file : Bytes → Bytes → Exec S (Unit {0})
  pub dir : Bytes → Bytes
  pub example_config : Bytes

module _ {S : Type 0} (files : Files S) where
  unfoldable pub write_config : Bytes → Exec S Bytes
  write_config path = do
    files.mkdir_all (files.dir path)
    files.write_file path files.example_config
    pure (
        line (utf8 "Vytvořeno: " ++ path)
        ++ line
            (utf8 "Uprav watch_roots a spusť `krennic keys set anthropic`, pak `krennic doctor`."))

  unfoldable pub init_config : Bytes → Bool → Exec S Bytes
  unfolding write_config
  init_config path force g =
      if files.exists path g && not force
      then (err (utf8 "config už existuje: " ++ (path ++ utf8 " (použij --force pro přepsání)")), g)
      else write_config path g
