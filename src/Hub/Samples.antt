-- ===== src/Hub/Samples.antt =====
-- A small hub and its client.
use director_orson_callan_kr.Base.{false, none, some, [], ◌∷◌, ok, utf8, take}
use director_orson_callan_kr.Model.{Developer, done}
use director_orson_callan_kr.Audit.{Report}
use director_orson_callan_kr.Sql.{Conn}
use director_orson_callan_kr.Hub.Log.{HubDb, empty_hub}
use director_orson_callan_kr.Hub.Client.{Client}
use director_orson_callan_kr.Hub.Server.{Server, Codec}

abbrev pub alice : Developer
alice = record {
  user_slug = utf8 "alice";
  git_name = [];
  git_email = [];
  machine = [];
  os_user = [];
}

abbrev pub report : Report
report = record {
  report_id = utf8 "r1";
  change_id = utf8 "r1";
  reported_at = 4;
  developer = alice;
  repo = utf8 "svc";
  remote = [];
  branch = utf8 "main";
  head_sha = [];
  shadow_ref = [];
  shadow_sha = [];
  files = [];
  lines_added = 1;
  lines_removed = 0;
  languages = [];
  redacted_paths = [];
  relevance = [];
  categories = [];
  escalated = false;
  verdict = [];
  findings_count = 0;
  review_summary = [];
  status = done;
}

-- Every answer is encoded as its kind.
abbrev pub codec : Codec
codec = record {
  decode_report = λ s. ok report;
  encode_entry = λ e. utf8 "entry";
  encode_feed = λ es. utf8 "feed";
  encode_verify = λ v. utf8 "verify";
  encode_stats = λ st. utf8 "stats";
  atoi = λ s. none;
  dashboard = utf8 "page";
}

abbrev pub hub : Server
hub = record {
  token = utf8 "t0k";
  library = record {
    digest = λ s. take 64 s;
    marshal_report = λ r. r.report_id;
    format_time = λ t. t ∷ [];
  };
  codec = codec;
}

abbrev pub start : Conn HubDb
start = record { db = empty_hub; faults = [] }

abbrev pub down : Conn HubDb
down = record { db = empty_hub; faults = some (utf8 "locked") ∷ [] }

abbrev pub client : Client
client = record { url = []; token = utf8 "t0k" }
