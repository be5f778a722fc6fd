-- ===== src/Redact.antt =====
-- krennic/internal/redact/redact.go: the deny globs and the masking of secrets. Matching and
-- replacing by a regular expression is a parameter. A glob is read by its bytes where the code reads
-- code points; in UTF-8 this writes the same expression.
use director_orson_callan_kr.Base.{
  ℕ, ◌+◌, ◌&&◌, Bytes, Bool, true, false, none, some, List, [], ◌∷◌, ◌++◌, map, ◌==◌, any,
  if◌then◌else◌, utf8, index, last_index, replace_all, drop,
}

-- Go's package regexp: whether an expression compiles and matches, and ReplaceAllString.
pub record Regexp : Type 0 where
  pub match_string : Bytes → Bytes → Bool
  pub replace_all_string : Bytes → Bytes → Bytes → Bytes

pub record Redactor : Type 0 where
  pub deny : List Bytes
  pub scan_regex : Bool
  pub secret_re : List Bytes

abbrev pub default_secret_patterns : List Bytes
default_secret_patterns =
    utf8 "AKIA[0-9A-Z]{16}"
    ∷ utf8 "(?i)aws_secret_access_key\\s*[:=]\\s*\\S+"
    ∷ utf8 "eyJ[A-Za-z0-9_-]{10,}\\.[A-Za-z0-9_-]{10,}\\.[A-Za-z0-9_-]{10,}"
    ∷ utf8 "-----BEGIN [A-Z ]*PRIVATE KEY-----"
    ∷ utf8 "(?i)(api[_-]?key|secret|token|password)\\s*[:=]\\s*['\"][^'\"]{6,}['\"]"
    ∷ utf8 "ghp_[A-Za-z0-9]{36}"
    ∷ utf8 "xox[baprs]-[A-Za-z0-9-]{10,}"
    ∷ []

-- New
unfoldable pub new_redactor : List Bytes → Bool → Redactor
new_redactor deny scan_regex = record {
  deny = deny;
  scan_regex = scan_regex;
  secret_re = default_secret_patterns;
}

unfoldable pub deny_pathspecs : Redactor → List Bytes
deny_pathspecs r = map (λ p. utf8 ":(glob)!" ++ p) r.deny

-- The bytes that an expression must escape.
abbrev pub is_meta : ℕ → Bool
is_meta c = any (λ d. d == c) (utf8 ".+()|^${}[]\\")

-- What one byte of a glob stands for, unless it begins `**`.
unfoldable pub glob_char : ℕ → Bytes
glob_char c =
    if c == b'*'
    then utf8 "[^/]*"
    else if c == b'?'
    then utf8 "[^/]"
    else if is_meta c
    then b'\\' ∷ c ∷ []
    else c ∷ []

unfoldable pub glob_to_regexp : Bytes → Bytes
unfolding glob_char
glob_to_regexp [] = []
glob_to_regexp (c ∷ []) = glob_char c
glob_to_regexp (c ∷ d ∷ []) =
    let next = glob_to_regexp (d ∷ []) in
    if c == b'*' && d == b'*' then utf8 ".*" else glob_char c ++ next
glob_to_regexp (c ∷ d ∷ e ∷ s) = elim (c == b'*' && d == b'*') [
  | true ↦ elim (e == b'/') [
    | true ↦ utf8 ".*/?" ++ glob_to_regexp s
    | false ↦ utf8 ".*" ++ glob_to_regexp (e ∷ s)
  ]
  | false ↦ glob_char c ++ glob_to_regexp (d ∷ e ∷ s)
]

-- filepathSlash
abbrev pub filepath_slash : Bytes → Bytes
filepath_slash p = replace_all p b'\\' b'/'

-- What follows the last slash.
unfoldable pub base_name : Bytes → Bytes
unfolding last_index
base_name rel = elim (last_index b'/' rel) [ none ↦ rel | some i ↦ drop (i + 1) rel ]

module _ (re : Regexp) where
  unfoldable pub glob_match : Bytes → Bytes → Bool
  unfolding glob_to_regexp
  glob_match pattern name = re.match_string (b'^' ∷ (glob_to_regexp pattern ++ b'$' ∷ [])) name

  -- Whether one glob of the deny list matches.
  unfoldable pub denies : Bytes → Bytes → Bool
  unfolding glob_match base_name index
  denies rel pat = elim (index pat (utf8 "/")) [
    | some i ↦ glob_match pat rel
    | none ↦ glob_match pat (base_name rel)
  ]

  unfoldable pub is_denied : Redactor → Bytes → Bool
  unfolding denies
  is_denied r rel_path = any (denies (filepath_slash rel_path)) r.deny

  -- The loop of MaskLine over the expressions.
  unfoldable pub mask_with : List Bytes → Bytes → Bool → Bytes × Bool
  mask_with [] line masked = (line, masked)
  mask_with (p ∷ ps) line masked =
      if re.match_string p line
      then mask_with ps (re.replace_all_string p line (utf8 "[REDACTED]")) true
      else mask_with ps line masked

  unfoldable pub mask_line : Redactor → Bytes → Bytes × Bool
  unfolding mask_with
  mask_line r line = if r.scan_regex then mask_with r.secret_re line false else (line, false)
