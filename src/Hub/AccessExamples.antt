-- ===== src/Hub/AccessExamples.antt =====
-- The theorems on the hub's handlers at a small log.
use director_orson_callan_kr.Base.{◌≡◌, refl, ◌⊎◌, true, false, utf8, str_eq, trim_prefix}
use director_orson_callan_kr.Hub.Client.{Request, report_request}
use director_orson_callan_kr.Hub.Server.{authed, handler}
use director_orson_callan_kr.Hub.Access.{handler-unauthorized}
use director_orson_callan_kr.Hub.Samples.{hub, start, down, client}

abbrev posted : Request
posted = report_request client (utf8 "{}")

abbrev stranger : Request
stranger = record posted { authorization = utf8 "Bearer x" }

is_refused : authed hub stranger ≡ false
unfolding authed report_request str_eq trim_prefix
is_refused = refl

handler-unauthorized_example :
    ((handler hub 3 stranger start).1.db ≡ start.db)
    × ((str_eq stranger.target (utf8 "/api/stats") ≡ true)
        ⊎ ((handler hub 3 stranger start).0 ≡ (handler hub 3 stranger down).0))
handler-unauthorized_example = handler-unauthorized hub 3 stranger start down is_refused
