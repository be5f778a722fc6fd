-- ===== src/Hub/Server.antt =====
-- krennic/internal/hub/server.go: the handlers, from a request to a response and the log behind it.
-- http.Error ends its text with a newline.
use director_orson_callan_kr.Base.{
  ℕ, zero, suc, Bytes, Bool, true, not, ◌||◌, Option, none, some, List, [], ◌++◌, Result, ok, err,
  str_eq, utf8, trim_prefix, if◌then◌else◌,
}
use director_orson_callan_kr.Model.{Time}
use director_orson_callan_kr.Audit.{Report}
use director_orson_callan_kr.Sql.{Conn}
use director_orson_callan_kr.Hub.Log.{
  HubDb, HubLibrary, Entry, VerifyResult, StatsResult, append, feed, verify, stats,
}
use director_orson_callan_kr.Hub.Client.{Request, Response}

-- The decoder of reports, the encoder of each answer, strconv.Atoi where it gives no negative
-- number, and the page of the dashboard.
pub record Codec : Type 0 where
  pub decode_report : Bytes → Result Report
  pub encode_entry : ℕ × Bytes → Bytes
  pub encode_feed : List Entry → Bytes
  pub encode_verify : VerifyResult → Bytes
  pub encode_stats : StatsResult → Bytes
  pub atoi : Bytes → Option ℕ
  pub dashboard : Bytes

pub record Server : Type 0 where
  pub token : Bytes
  pub library : HubLibrary
  pub codec : Codec

abbrev pub http_error : ℕ → Bytes → Response
http_error status msg = record { status = status; body = msg ++ utf8 "\n" }

abbrev pub ok_response : Bytes → Response
ok_response body = record { status = 200; body = body }

abbrev pub unauthorized : Response
unauthorized = http_error 401 (utf8 "unauthorized")

-- The limit that a query asks for, if it is a positive number.
unfoldable pub limit_or : ℕ → Option ℕ → ℕ
limit_or default none = default
limit_or default (some zero) = default
limit_or default (some (suc n)) = suc n

stats_or_zero : Result StatsResult → StatsResult
stats_or_zero (ok st) = st
stats_or_zero (err e) = record { total = 0; developers = 0; repos = 0 }

module _ (s : Server) where
  unfoldable pub authed : Request → Bool
  unfolding trim_prefix
  authed r =
      if str_eq s.token []
      then true
      else str_eq (trim_prefix r.authorization (utf8 "Bearer ")) s.token

  unfoldable pub appended_response : Result (ℕ × Bytes) → Response
  appended_response (ok entry) = ok_response (s.codec.encode_entry entry)
  appended_response (err e) = http_error 500 (utf8 "store error")

  -- A report that has been decoded.
  unfoldable pub store_report : Time → Report → Conn HubDb → Response × Conn HubDb
  unfolding appended_response
  store_report now rep c =
      if str_eq rep.report_id [] || str_eq rep.change_id []
      then (http_error 400 (utf8 "missing report_id/change_id"), c)
      else (let (r, c') = append s.library now rep c in (appended_response r, c'))

  unfoldable pub decoded_report : Time → Result Report → Conn HubDb → Response × Conn HubDb
  unfolding store_report
  decoded_report now (err e) c = (http_error 400 (utf8 "bad json: " ++ e), c)
  decoded_report now (ok rep) c = store_report now rep c

  unfoldable pub handle_report : Time → Request → Conn HubDb → Response × Conn HubDb
  unfolding authed decoded_report
  handle_report now r c =
      if not (str_eq r.method (utf8 "POST"))
      then (http_error 405 (utf8 "POST only"), c)
      else if not (authed r)
      then (unauthorized, c)
      else decoded_report now (s.codec.decode_report r.body) c

  answer {ℓ} : {A : Type ℓ} → (A → Bytes) → Result A → Response
  answer encode (ok a) = ok_response (encode a)
  answer encode (err e) = http_error 500 e

  unfoldable pub handle_feed : Request → Conn HubDb → Response × Conn HubDb
  unfolding authed limit_or answer
  handle_feed r c =
      if not (authed r)
      then (unauthorized, c)
      else (let limit = limit_or 100 (s.codec.atoi (r.query (utf8 "limit"))) in
          let (res, c') = feed limit (r.query (utf8 "user")) (r.query (utf8 "repo")) c in
          (answer s.codec.encode_feed res, c'))

  unfoldable pub handle_verify : Request → Conn HubDb → Response × Conn HubDb
  unfolding authed answer
  handle_verify r c =
      if not (authed r)
      then (unauthorized, c)
      else (let (res, c') = verify s.library.digest c in (answer s.codec.encode_verify res, c'))

  unfoldable pub handle_stats : Request → Conn HubDb → Response × Conn HubDb
  unfolding stats_or_zero
  handle_stats r c =
      let (res, c') = stats c in (ok_response (s.codec.encode_stats (stats_or_zero res)), c')

  unfoldable pub handle_dashboard : Request → Conn HubDb → Response × Conn HubDb
  handle_dashboard r c =
      if not (str_eq r.target (utf8 "/"))
      then (http_error 404 (utf8 "404 page not found"), c)
      else (ok_response s.codec.dashboard, c)

  -- Handler: the pattern `/` takes every other path.
  unfoldable pub handler : Time → Request → Conn HubDb → Response × Conn HubDb
  unfolding handle_report handle_feed handle_verify handle_stats handle_dashboard
  handler now r c =
      if str_eq r.target (utf8 "/api/report")
      then handle_report now r c
      else if str_eq r.target (utf8 "/api/feed")
      then handle_feed r c
      else if str_eq r.target (utf8 "/api/verify")
      then handle_verify r c
      else if str_eq r.target (utf8 "/api/stats")
      then handle_stats r c
      else handle_dashboard r c
