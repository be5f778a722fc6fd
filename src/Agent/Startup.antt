-- ===== src/Agent/Startup.antt =====
-- krennic/internal/agent/helpers.go: the slug of a user, the roots to watch and their remotes.
use director_orson_callan_kr.Base.{
  ℕ, Bytes, Bool, not, ◌&&◌, ◌||◌, ◌==◌, Option, none, some, List, [], ◌∷◌, ◌++◌, any, leb, str_eq,
  trim_space, to_lower, if◌then◌else◌,
}
use director_orson_callan_kr.Config.Defs.{Config, RepoConfig}
use director_orson_callan_kr.Sql.Table.{Table, find, upsert}

-- A rune that stays in a slug.
abbrev pub is_slug : ℕ → Bool
is_slug c = (leb b'a' c && leb c b'z') || (leb b'0' c && leb c b'9') || c == b'-' || c == b'_'

unfoldable pub dashed_runes : List ℕ → Bytes
dashed_runes [] = []
dashed_runes (c ∷ s) = (if is_slug c then c else b'-') ∷ dashed_runes s

-- sanitize of an ASCII text.
unfoldable pub sanitize : Bytes → Bytes
unfolding dashed_runes trim_space to_lower
sanitize s = dashed_runes (to_lower (trim_space s))

-- filepath.Abs, DiscoverRepos, and the origin of a repository.
pub record Disk : Type 0 where
  pub abs : Bytes → Option Bytes
  pub discover : List Bytes → List Bytes
  pub origin : Bytes → Bytes

unfoldable pub abs_or : Bytes → Option Bytes → Bytes
abs_or p none = p
abs_or p (some abs) = abs

module _ (disk : Disk) (cfg : Config) where
  -- `add`, on the roots so far.
  unfoldable pub add_root : List Bytes → Bytes → List Bytes
  unfolding abs_or
  add_root repos p =
      let abs = abs_or p (disk.abs p) in
      if any (str_eq abs) repos then repos else repos ++ (abs ∷ [])

  unfoldable pub add_roots : List Bytes → List Bytes → List Bytes
  unfolding add_root
  add_roots repos [] = repos
  add_roots repos (p ∷ ps) = add_roots (add_root repos p) ps

  unfoldable pub add_configured : List Bytes → List RepoConfig → List Bytes
  unfolding add_root
  add_configured repos [] = repos
  add_configured repos (r ∷ rs) =
      add_configured (if r.enabled then add_root repos r.path else repos) rs

  unfoldable pub resolve_repos : List Bytes
  unfolding add_roots add_configured
  resolve_repos = add_roots (add_configured [] cfg.repos) (disk.discover cfg.agent.watch_roots)

  unfoldable pub put_override : RepoConfig → Option Bytes → Table Bytes → Table Bytes
  put_override r none t = t
  put_override r (some abs) t = upsert abs r.remote_url (λ _. r.remote_url) t

  -- The URLs of the configuration, by root; a later one replaces an earlier one.
  unfoldable pub overrides : Table Bytes → List RepoConfig → Table Bytes
  unfolding put_override
  overrides t [] = t
  overrides t (r ∷ rs) =
      overrides (if str_eq r.remote_url [] then t else put_override r (disk.abs r.path) t) rs

  -- A missing key is the empty text.
  unfoldable pub override_of : Table Bytes → Bytes → Bytes
  override_of t root = elim (find root t) [ none ↦ [] | some url ↦ url ]

  unfoldable pub remote_of : Bytes → Bytes
  unfolding overrides override_of
  remote_of root =
      let url = override_of (overrides [] cfg.repos) root in
      if not (str_eq url [])
      then url
      else if not (str_eq cfg.git.remote_url [])
      then cfg.git.remote_url
      else disk.origin root

  unfoldable pub resolve_remotes : List Bytes → Table Bytes
  unfolding remote_of
  resolve_remotes [] = []
  resolve_remotes (root ∷ roots) =
      upsert root (remote_of root) (λ _. remote_of root) (resolve_remotes roots)
