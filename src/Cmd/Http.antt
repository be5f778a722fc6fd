-- ===== src/Cmd/Http.antt =====
-- krennic/cmd/krennic/commands.go, hub.go and admin.go: the helpers of the commands, and the HTTP
-- calls. The client of net/http is a parameter: it sends a call and gets a response, or fails.
use director_orson_callan_kr.Base.{
  ℕ, suc, Bytes, Bool, Option, none, some, [], ◌∷◌, ◌++◌, Result, ok, err, Exec, pure, lift,
  map_err, ◌>>=◌, ◌>>◌, ℤ, pos, negsuc, leb, ◌==◌, length, take, str_eq, utf8, if◌then◌else◌,
}
use director_orson_callan_kr.Ai.Prompts.{decimal}
use director_orson_callan_kr.Config.Defs.{Config, System, load}
use director_orson_callan_kr.Hub.Client.{Response}

pub record Call : Type 0 where
  pub method : Bytes
  pub url : Bytes
  pub authorization : Bytes

abbrev pub Transport : Type 0 → Type 0
Transport S = Call → Exec S Response

-- strconv.Itoa
unfoldable pub itoa : ℤ → Bytes
unfolding decimal
itoa (pos n) = decimal n
itoa (negsuc n) = utf8 "-" ++ decimal (suc n)

-- The text s[:n], which cuts at a byte.
unfoldable pub cut : Bytes → ℕ → Bytes
cut s n = if leb (length s) n then s else take n s

unfoldable pub nz : Bytes → Bytes → Bytes
unfolding str_eq
nz s fallback = if str_eq s [] then fallback else s

unfoldable pub addr_human : Bytes → Bytes
addr_human [] = []
addr_human (c ∷ s) = if c == b':' then utf8 "127.0.0.1" ++ (c ∷ s) else c ∷ s

unfoldable pub status_of : Option Bytes → Bytes
status_of none = utf8 "ok"
status_of (some e) = e

unfoldable pub bool_str : Bool → Bytes → Bytes → Bytes
bool_str b y n = if b then y else n

unfoldable pub or_dash : Bytes → Bytes
unfolding str_eq
or_dash s = if str_eq s [] then utf8 "—" else s

abbrev configured_addr : Config × Option Bytes → Bytes
configured_addr (cfg, some e) = utf8 "127.0.0.1:7373"
configured_addr (cfg, none) =
    if str_eq cfg.agent.dashboard_addr [] then utf8 "127.0.0.1:7373" else cfg.agent.dashboard_addr

-- daemonBase
unfoldable pub daemon_base : System → Bytes → Bytes
unfolding load str_eq
daemon_base sys path = utf8 "http://" ++ configured_addr (load sys path)

abbrev pub wrapped : Bytes → Bytes → Bytes
wrapped what e = what ++ (utf8 " (" ++ (e ++ utf8 ")"))

-- The body of an answer with status 200.
unfoldable pub body_of : Bytes → Response → Result Bytes
unfolding decimal
body_of prefix resp =
    if resp.status == 200
    then ok resp.body
    else err (prefix ++ (utf8 "HTTP " ++ decimal resp.status))

module _ {S : Type 0} (transport : Transport S) where
  module _ {A : Type 0} (decode : Bytes → Result A) where
    unfoldable pub get_json : Bytes → Exec S A
    unfolding body_of
    get_json url = do
      resp ←
          map_err (wrapped (utf8 "agent neběží?"))
            (transport (record { method = utf8 "GET"; url = url; authorization = [] }))
      body ← lift (body_of [] resp)
      lift (decode body)

    unfoldable pub get_json_auth : Bytes → Bytes → Exec S A
    unfolding body_of
    get_json_auth url token = do
      resp ← map_err (wrapped (utf8 "hub nedostupný?")) (
          transport (record {
            method = utf8 "GET";
            url = url;
            authorization = if str_eq token [] then [] else utf8 "Bearer " ++ token;
          }))
      body ← lift (body_of (utf8 "hub ") resp)
      lift (decode body)

  -- The status of the answer is not read.
  unfoldable pub post_url : Bytes → Exec S Unit
  post_url url = do
    map_err (wrapped (utf8 "agent neběží?"))
        (transport (record { method = utf8 "POST"; url = url; authorization = [] }))
    pure tt
