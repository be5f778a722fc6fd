-- ===== src/Config/Examples.antt =====
-- Tests of the configuration, and its theorem at a concrete input.
use director_orson_callan_kr.Base.{◌≡◌, refl, none, some, ◌++◌, utf8, str_eq, has_prefix}
use director_orson_callan_kr.Config.Defs.{
  System, default, normalize, validate, load, decoded, expand_home,
}
use director_orson_callan_kr.Config.Loaded.{IsUsable, load-IsUsable}

-- The file is there and sets nothing.
abbrev plain : System
plain = record {
  home = some (utf8 "/home/alice");
  join_path = λ a b. a ++ (utf8 "/" ++ b);
  stat = λ p. none;
  decode_file = λ p c. (c, none);
  quote = λ s. s;
}

expands : expand_home plain (utf8 "~/code") ≡ utf8 "/home/alice/code"
unfolding expand_home str_eq has_prefix
expands = refl

loads : (load plain (utf8 "config.toml")).1 ≡ none
unfolding load decoded default normalize validate str_eq has_prefix
loads = refl

load-IsUsable_example : IsUsable (load plain (utf8 "config.toml")).0
load-IsUsable_example = load-IsUsable plain (utf8 "config.toml") loads
