-- ===== src/Agent/StartupExamples.antt =====
-- Tests of the roots, their remotes and the slug.
use director_orson_callan_kr.Base.{
  Bytes, ◌≡◌, refl, true, some, [], ◌∷◌, ◌++◌, utf8, str_eq, trim_space, trim_left, trim_right_by,
  to_lower,
}
use director_orson_callan_kr.Sql.Table.{find, upsert}
use director_orson_callan_kr.Config.Defs.{Config, RepoConfig}
use director_orson_callan_kr.Agent.Startup.{
  Disk, sanitize, dashed_runes, add_root, add_roots, add_configured, resolve_repos, abs_or,
  remote_of, overrides, put_override, override_of,
}

slug : sanitize (utf8 " Ada.Lovelace\\42 ") ≡ utf8 "ada-lovelace-42"
unfolding sanitize dashed_runes trim_space trim_left trim_right_by to_lower
slug = refl

-- Paths are absolute, and one repository is found.
abbrev disk : Disk
disk = record {
  abs = λ p. some p;
  discover = λ roots. utf8 "/a" ∷ utf8 "/b" ∷ [];
  origin = λ root. utf8 "origin of " ++ root;
}

abbrev configured : Bytes → Bytes → RepoConfig
configured path url = record { path = path; enabled = true; remote_url = url }

module _ (cfg : Config) where
  abbrev two_repos : Config
  two_repos = record cfg {
    repos = configured (utf8 "/a") (utf8 "git@h:a") ∷ configured (utf8 "/c") [] ∷ [];
  }

  -- A root is watched once.
  roots : resolve_repos disk two_repos ≡ utf8 "/a" ∷ utf8 "/c" ∷ utf8 "/b" ∷ []
  unfolding resolve_repos add_roots add_configured add_root abs_or str_eq
  roots = refl

  overridden : remote_of disk two_repos (utf8 "/a") ≡ utf8 "git@h:a"
  unfolding remote_of overrides put_override override_of find upsert str_eq
  overridden = refl
