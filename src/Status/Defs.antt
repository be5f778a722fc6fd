-- ===== src/Status/Defs.antt =====
-- krennic/internal/status/status.go. The HTTP client, the JSON encoder and package net/url are
-- parameters.
use director_orson_callan_kr.Base.{
  ℕ, ◌+◌, ◌-◌, Bytes, not, ◌==◌, Option, none, some, List, [], ◌∷◌, ◌++◌, Result, ok, err, str_eq,
  utf8, leb, length, take, drop, index, has_prefix, trim_space, trim_suffix, trim_right_by,
  trim_left, replace_all, if◌then◌else◌,
}
use director_orson_callan_kr.Model.{ChangeEvent, TriageResult, ReviewResult}
use director_orson_callan_kr.Ai.Prompts.{decimal}

pub record StatusRequest : Type 0 where
  pub endpoint : Bytes
  pub headers : List (Bytes × Bytes)
  pub body : Bytes

-- url.Parse, which gives the path, and url.PathEscape; the encoder of the body's fields; the HTTP
-- client, which gives the status code; and the verb %q.
pub record Web : Type 0 where
  pub parse_path : Bytes → Option Bytes
  pub path_escape : Bytes → Bytes
  pub encode : List (Bytes × Bytes) → Bytes
  pub do_request : StatusRequest → Result ℕ
  pub quote : Bytes → Bytes

pub data Provider : Type 0 where
  github gitlab : Provider

pub record Publisher : Type 0 where
  pub provider : Provider
  pub token : Bytes
  pub base : Bytes

unfoldable pub new_publisher : Web → Bytes → Bytes → Result Publisher
new_publisher web provider token =
    if str_eq provider (utf8 "github")
    then ok (record { provider = github; token = token; base = utf8 "https://api.github.com" })
    else if str_eq provider (utf8 "gitlab")
    then ok (record { provider = gitlab; token = token; base = utf8 "https://gitlab.com/api/v4" })
    else err (utf8 "unknown status provider " ++ web.quote provider)

unfoldable pub trunc : Bytes → ℕ → Bytes
unfolding trim_space replace_all
trunc text n =
    let s = trim_space (replace_all text b'\n' b' ') in
    if leb (length s) n then s else take (n - 1) s ++ utf8 "…"

-- The state and the description.
unfoldable pub verdict : Option TriageResult → Option ReviewResult → Bytes × Bytes
unfolding trunc
verdict tr (some rv) =
    if str_eq rv.verdict (utf8 "request-changes")
    then (utf8 "failure", trunc rv.summary 140)
    else (utf8 "success", trunc rv.summary 140)
verdict (some tr) none =
    (utf8 "success", trunc (utf8 "triage: " ++ (tr.relevance ++ (utf8 " — " ++ tr.reason))) 140)
verdict none none = (utf8 "pending", utf8 "krennic analyzing")

unfoldable pub sha_for : ChangeEvent → Bytes
sha_for ev = if not (str_eq ev.repo.head_sha []) then ev.repo.head_sha else ev.repo.shadow_sha

-- strings.Trim(path, "/")
unfoldable pub trim_slashes : Bytes → Bytes
unfolding trim_left trim_right_by
trim_slashes path = trim_right_by (λ c. c == b'/') (trim_left (λ c. c == b'/') path)

module _ (web : Web) where
  -- The last part of remotePath: a URL with a path.
  unfoldable pub url_path : Bytes → Result Bytes
  unfolding trim_slashes
  url_path remote = elim (web.parse_path remote) [
    | none ↦ err (utf8 "cannot parse remote " ++ web.quote remote)
    | some path ↦
        if str_eq path []
        then err (utf8 "cannot parse remote " ++ web.quote remote)
        else ok (trim_slashes path)
  ]

  -- An `ssh://` URL.
  unfoldable pub ssh_path : Bytes → Result Bytes
  unfolding trim_slashes url_path
  ssh_path remote = elim (web.parse_path remote) [
    | none ↦ url_path remote
    | some path ↦ ok (trim_slashes path)
  ]

  -- A remote that begins with `git@`.
  unfoldable pub scp_path : Bytes → Result Bytes
  unfolding index trim_suffix ssh_path
  scp_path remote = elim (index remote (utf8 ":")) [
    | none ↦ ssh_path remote
    | some i ↦ ok (trim_suffix (drop (i + 1) remote) (utf8 ".git"))
  ]

  unfoldable pub remote_path : Bytes → Result Bytes
  unfolding trim_space has_prefix scp_path ssh_path url_path
  remote_path untrimmed =
      let remote = trim_space untrimmed in
      if str_eq remote []
      then err (utf8 "empty remote url")
      else if has_prefix remote (utf8 "ssh://")
      then ssh_path remote
      else if has_prefix remote (utf8 "git@")
      then scp_path remote
      else url_path remote

  -- strings.SplitN(path, "/", 2)
  unfoldable pub owner_and_repo : Bytes → Bytes → Result (Bytes × Bytes)
  unfolding index trim_suffix
  owner_and_repo remote path = elim (index path (utf8 "/")) [
    | none ↦ err (utf8 "cannot parse github remote " ++ web.quote remote)
    | some i ↦ ok (take i path, trim_suffix (drop (i + 1) path) (utf8 ".git"))
  ]

  unfoldable pub parse_github : Bytes → Result (Bytes × Bytes)
  unfolding remote_path owner_and_repo
  parse_github remote = elim (remote_path remote) [
    | err e ↦ err e
    | ok path ↦ owner_and_repo remote path
  ]

  unfoldable pub parse_gitlab : Bytes → Result Bytes
  unfolding remote_path trim_suffix
  parse_gitlab remote = elim (remote_path remote) [
    | err e ↦ err e
    | ok path ↦ ok (trim_suffix path (utf8 ".git"))
  ]

  -- `do`: the error, if there is one.
  unfoldable pub posted : Bytes → StatusRequest → Option Bytes
  unfolding decimal
  posted who req = elim (web.do_request req) [
    | err e ↦ some e
    | ok status ↦
        if leb 300 status
        then some (who ++ (utf8 " status publish failed: " ++ decimal status))
        else none
  ]

  abbrev pub fields : Bytes → Bytes × Bytes → List (Bytes × Bytes)
  fields name (state, desc) =
      (utf8 "state", state) ∷ (utf8 "description", desc) ∷ (name, utf8 "krennic/ai-review") ∷ []

  unfoldable pub github_request :
      Publisher → ChangeEvent → Bytes × Bytes → Bytes × Bytes → StatusRequest
  unfolding sha_for
  github_request p ev v (owner, repo) = record {
    endpoint =
        p.base
        ++ (utf8 "/repos/" ++ (owner ++ (utf8 "/" ++ (repo ++ (utf8 "/statuses/" ++ sha_for ev)))));
    headers =
        (utf8 "authorization", utf8 "Bearer " ++ p.token)
        ∷ (utf8 "accept", utf8 "application/vnd.github+json")
        ∷ (utf8 "content-type", utf8 "application/json")
        ∷ [];
    body = web.encode (fields (utf8 "context") v);
  }

  -- GitLab's word for a failure.
  unfoldable pub gitlab_verdict : Bytes × Bytes → Bytes × Bytes
  gitlab_verdict (state, desc) =
      if str_eq state (utf8 "failure") then (utf8 "failed", desc) else (state, desc)

  unfoldable pub gitlab_request : Publisher → ChangeEvent → Bytes × Bytes → Bytes → StatusRequest
  unfolding sha_for gitlab_verdict
  gitlab_request p ev v project = record {
    endpoint =
        p.base
        ++ (utf8 "/projects/" ++ (web.path_escape project ++ (utf8 "/statuses/" ++ sha_for ev)));
    headers = (utf8 "private-token", p.token) ∷ (utf8 "content-type", utf8 "application/json") ∷ [];
    body = web.encode (fields (utf8 "name") (gitlab_verdict v));
  }

  unfoldable pub publish_github :
      Publisher → ChangeEvent → Option TriageResult → Option ReviewResult → Option Bytes
  unfolding parse_github verdict github_request posted
  publish_github p ev tr rv = elim (parse_github ev.repo.remote) [
    | err e ↦ some e
    | ok path ↦ posted (utf8 "github") (github_request p ev (verdict tr rv) path)
  ]

  unfoldable pub publish_gitlab :
      Publisher → ChangeEvent → Option TriageResult → Option ReviewResult → Option Bytes
  unfolding parse_gitlab verdict gitlab_request posted
  publish_gitlab p ev tr rv = elim (parse_gitlab ev.repo.remote) [
    | err e ↦ some e
    | ok project ↦ posted (utf8 "gitlab") (gitlab_request p ev (verdict tr rv) project)
  ]
