-- ===== src/Cmd/Samples.antt =====
-- A machine on which the commands run.
use director_orson_callan_kr.Base.{
  Bytes, none, some, [], ◌++◌, ok, err, str_eq, utf8, drop, pos, if◌then◌else◌,
}
use director_orson_callan_kr.Config.Defs.{System}
use director_orson_callan_kr.Hub.Client.{Request}
use director_orson_callan_kr.Agent.Defs.{World}
use director_orson_callan_kr.Agent.Samples.{small, console}
use director_orson_callan_kr.Cmd.Http.{Call}
use director_orson_callan_kr.Cmd.Json.{other}
use director_orson_callan_kr.Cmd.Console.{Library}

-- The configuration file is there and sets nothing.
abbrev pub plain : System
plain = record {
  home = some (utf8 "/home/alice");
  join_path = λ a b. a ++ (utf8 "/" ++ b);
  stat = λ p. none;
  decode_file = λ p c. (c, none);
  quote = λ s. s;
}

-- Every duration is 90 s long.
abbrev pub cli : Library
cli = record {
  decode_status = λ s. err (utf8 "EOF");
  decode_records = λ s. ok [];
  decode_any = λ s. ok other;
  pad = λ n s. s;
  fixed = λ n x. utf8 "0";
  quote = λ s. s;
  indent = λ v. utf8 "null";
  seconds = λ s. ok (pos 90);
  local_time = λ layout s. none;
}

-- The URL is 21 bytes of scheme and host, 19 of path and key, and the value.
abbrev pub to_daemon : Bytes → Call → Request
to_daemon target call = record {
  method = call.method;
  target = target;
  authorization = call.authorization;
  query = λ key. drop 40 call.url;
  body = [];
}

-- A daemon that reads one number.
abbrev pub daemon_90 : World Unit
daemon_90 = record small {
  console = record console { atoi = λ s. if str_eq s (utf8 "90") then some 90 else none };
}
