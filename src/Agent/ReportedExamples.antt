-- ===== src/Agent/ReportedExamples.antt =====
-- The theorem on the daemon and the hub at small ones.
use director_orson_callan_kr.Base.{◌≡◌, refl, ◌⊎◌, true, some, List, [], ◌∷◌, utf8, str_eq}
use director_orson_callan_kr.Sql.{exec}
use director_orson_callan_kr.Sql.Table.{find, upsert}
use director_orson_callan_kr.Store.Outbox.{enqueue_outbox}
use director_orson_callan_kr.Hub.Samples.{hub, start, client}
use director_orson_callan_kr.Agent.Defs.{World, Agent}
use director_orson_callan_kr.Agent.Awaits.{awaits}
use director_orson_callan_kr.Agent.Daemon.{Event, woke, ticked, run}
use director_orson_callan_kr.Agent.Reported.{sends, Logged, run-Logged}
use director_orson_callan_kr.Agent.Samples.{small, idle, plain}

-- The daemon's client reaches a hub whose log is empty at each request.
abbrev joined : World Unit
joined = record small { hub = some (sends hub client (λ n. start) (λ n. n)) }

abbrev stocked : Agent Unit
stocked = record idle {
  conn = (enqueue_outbox plain 3 (utf8 "r1") (utf8 "r1") (utf8 "{}") idle.conn).1;
}

stocked_awaits : awaits (utf8 "r1") stocked.conn.db ≡ true
unfolding enqueue_outbox exec upsert find str_eq
stocked_awaits = refl

abbrev night : List Event
night = woke 3 (λ n. 8) ∷ ticked ∷ ticked ∷ []

run-Logged_example :
    (awaits (utf8 "r1") (run joined night stocked).conn.db ≡ true)
    ⊎ Logged hub client (λ n. start) (λ n. n) (λ n. refl) joined (utf8 "r1") refl night stocked
run-Logged_example =
    run-Logged hub client (λ n. start) (λ n. n) (λ n. refl) joined (utf8 "r1") refl night stocked
      stocked_awaits
