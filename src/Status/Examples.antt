-- ===== src/Status/Examples.antt =====
-- Tests of the commit statuses.
use director_orson_callan_kr.Base.{
  ◌≡◌, refl, none, some, ok, err, utf8, str_eq, if◌then◌else◌, index, has_prefix, trim_space,
  trim_suffix, trim_prefix, trim_right_by, trim_left, replace_all,
}
use director_orson_callan_kr.Status.Defs.{
  Web, remote_path, parse_github, parse_gitlab, owner_and_repo, scp_path, url_path, ssh_path,
  trim_slashes, trunc,
}

-- Two URLs are known.
abbrev web : Web
web = record {
  parse_path = λ url.
      if str_eq url (utf8 "https://github.com/acme/app.git")
      then some (utf8 "/acme/app.git")
      else if str_eq url (utf8 "ssh://git@host:22/acme/app")
      then some (utf8 "/acme/app")
      else none;
  path_escape = λ s. s;
  encode = λ fields. utf8 "{}";
  do_request = λ req. ok 201;
  quote = λ s. s;
}

reads_scp : parse_github web (utf8 "git@github.com:acme/app.git") ≡ ok (utf8 "acme", utf8 "app")
unfolding parse_github remote_path owner_and_repo scp_path index has_prefix trim_space trim_suffix
    trim_prefix trim_left trim_right_by str_eq
reads_scp = refl

reads_https :
    parse_github web (utf8 " https://github.com/acme/app.git\n") ≡ ok (utf8 "acme", utf8 "app")
unfolding parse_github remote_path owner_and_repo url_path trim_slashes index has_prefix trim_space
    trim_suffix trim_prefix trim_left trim_right_by str_eq
reads_https = refl

reads_ssh : parse_gitlab web (utf8 "ssh://git@host:22/acme/app") ≡ ok (utf8 "acme/app")
unfolding parse_gitlab remote_path ssh_path trim_slashes has_prefix trim_space trim_suffix
    trim_prefix trim_left trim_right_by str_eq
reads_ssh = refl

refuses_bad_url :
    parse_gitlab web (utf8 "http://[host") ≡ err (utf8 "cannot parse remote http://[host")
unfolding parse_gitlab remote_path url_path has_prefix trim_space trim_left trim_right_by str_eq
refuses_bad_url = refl

truncates : trunc (utf8 "one\ntwo three") 6 ≡ utf8 "one t…"
unfolding trunc trim_space trim_left trim_right_by replace_all
truncates = refl
