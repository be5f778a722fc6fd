-- ===== src/Config/Loaded.antt =====
-- What a configuration that Load accepts holds.
use director_orson_callan_kr.Base.{
  Bytes, ◌≡◌, ◌≢◌, ◌⊎◌, true, false, Option, ap, sym, ◌∙◌, none, some, [], arith, is_zero,
  str_eq_iff, has_prefix, utf8,
}
use director_orson_callan_kr.Config.Defs.{
  Config, System, load, default, normalize, validate, decoded,
}

-- What the daemon relies on.
pub record IsUsable (c : Config) : Type 0 where
  pub watches : (c.agent.watch_roots ≢ []) ⊎ (c.repos ≢ [])
  pub known_provider : (c.git.provider ≡ utf8 "github") ⊎ (c.git.provider ≡ utf8 "gitlab")
  pub under_refs : has_prefix c.git.shadow_namespace (utf8 "refs/") ≡ true
  pub debounces : is_zero c.agent.debounce_ms ≡ false
  pub waits : is_zero c.agent.max_wait_ms ≡ false
  pub works : is_zero c.agent.ai_workers ≡ false
  pub retains : is_zero c.git.retain_snapshots ≡ false

validate-none :
    (sys : System) (c : Config) → validate sys (normalize sys c) ≡ none → IsUsable (normalize sys c)
unfolding validate normalize
validate-none sys c h = record {
  watches = ground arith;
  known_provider =
      ground (
        arith,
        str_eq_iff c.git.provider (utf8 "github"),
        str_eq_iff c.git.provider (utf8 "gitlab"),
      );
  under_refs = ground arith;
  debounces = ground arith;
  waits = ground arith;
  works = ground arith;
  retains = ground arith;
}

decoded-IsUsable :
    (sys : System) (path : Bytes) (r : Config × Option Bytes)
    → (decoded sys path r).1 ≡ none
    → IsUsable (decoded sys path r).0
unfolding decoded
decoded-IsUsable sys path (c, some e) h = cc
decoded-IsUsable sys path (c, none) h = validate-none sys c h

load-decoded :
    (sys : System) (path : Bytes)
    → (load sys path).1 ≡ none
    → load sys path ≡ decoded sys path (sys.decode_file path (default sys))
unfolding load
load-decoded sys path h = ground arith

-- A configuration that Load returns without an error is usable: it has something to watch, a known
-- provider and a namespace under refs/, and its periods, its number of workers and of snapshots are
-- not 0, whatever the file says.
pub load-IsUsable :
    (sys : System) (path : Bytes) → (load sys path).1 ≡ none → IsUsable (load sys path).0
load-IsUsable sys path h =
    let e = load-decoded sys path h in
    rw e (
      decoded-IsUsable sys path (sys.decode_file path (default sys))
        (ap (λ (r : Config × Option Bytes). r.1) (sym e) ∙ h))
