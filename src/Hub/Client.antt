-- ===== src/Hub/Client.antt =====
-- krennic/internal/hub/client.go: Send. The transport is a parameter: it answers a request with
-- a status and a body, or fails.
use director_orson_callan_kr.Base.{
  ℕ, Bytes, Option, none, some, [], ◌++◌, Result, ok, err, leb, take, str_eq, utf8, trim_space,
  trim_right_by, ◌==◌, if◌then◌else◌,
}
use director_orson_callan_kr.Ai.Prompts.{decimal}

pub record Client : Type 0 where
  pub url : Bytes
  pub token : Bytes

-- A request as the hub reads it: its method, its path, the Authorization header, which is empty if
-- there is none, the parameters of its query, and its body.
pub record Request : Type 0 where
  pub method : Bytes
  pub target : Bytes
  pub authorization : Bytes
  pub query : Bytes → Bytes
  pub body : Bytes

pub record Response : Type 0 where
  pub status : ℕ
  pub body : Bytes

unfoldable pub new_client : Bytes → Bytes → Client
unfolding trim_right_by
new_client url token = record { url = trim_right_by (λ c. c == b'/') url; token = token }

unfoldable pub report_request : Client → Bytes → Request
report_request c payload = record {
  method = utf8 "POST";
  target = c.url ++ utf8 "/api/report";
  authorization = if str_eq c.token [] then [] else utf8 "Bearer " ++ c.token;
  query = λ _. [];
  body = payload;
}

-- What Send returns for the transport's answer: no error only for a status below 300.
unfoldable pub delivered : Result Response → Option Bytes
unfolding decimal trim_space
delivered (err e) = some e
delivered (ok resp) =
    if leb 300 resp.status
    then some
        (utf8 "hub " ++ (decimal resp.status ++ (utf8 ": " ++ trim_space (take 300 resp.body))))
    else none

-- Send: the error, if there is one.
unfoldable pub send : (Request → Result Response) → Client → Bytes → Option Bytes
unfolding report_request delivered
send transport c payload = delivered (transport (report_request c payload))
