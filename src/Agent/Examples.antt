-- ===== src/Agent/Examples.antt =====
-- The theorems on the daemon at a small one.
use director_orson_callan_kr.Base.{
  ◌+◌, ◌<◌, ◌≡◌, refl, true, List, [], ◌∷◌, utf8, str_eq, arith, All, ◌≤◌,
}
use director_orson_callan_kr.Sql.{exec, transaction}
use director_orson_callan_kr.Sql.Table.{find, upsert, count_where}
use director_orson_callan_kr.Store.Queue.{enqueue}
use director_orson_callan_kr.Store.Lifecycle.Tracked.{IsTracked}
use director_orson_callan_kr.Store.Lifecycle.Waiting.{waiting}
use director_orson_callan_kr.Agent.Defs.{Agent}
use director_orson_callan_kr.Agent.Work.{drain}
use director_orson_callan_kr.Agent.Drain.{Ended, drain-Ended}
use director_orson_callan_kr.Agent.Daemon.{Event, started, changed, woke, ticked, requested, run}
use director_orson_callan_kr.Store.Outbox.{enqueue_outbox}
use director_orson_callan_kr.Agent.Awaits.{awaits}
use director_orson_callan_kr.Agent.Paused.{is_within, run-waiting}
use director_orson_callan_kr.Agent.Samples.{change, plain, request, small, idle}

-- One row waits.
abbrev busy : Agent Unit
busy = record idle { conn = (enqueue plain 3 (change (utf8 "b")) idle.conn).1 }

busy_waits : waiting busy.conn.db < 2
unfolding enqueue transaction exec upsert count_where
busy_waits = omega arith

drain-Ended_example : Ended small (drain small 2 (λ n. 10 + n) busy)
drain-Ended_example = drain-Ended small 2 (λ n. 10 + n) busy busy_waits

abbrev day : List Event
day =
    started
    ∷ changed 7 (utf8 "/w/app")
    ∷ woke 5 (λ n. 8)
    ∷ ticked
    ∷ requested 9 (request (utf8 "/api/pause"))
    ∷ requested 10 (request (utf8 "/api/status"))
    ∷ []

idle-IsTracked : IsTracked idle.conn.db
unfolding find
idle-IsTracked = record { keyed = tt; recorded = λ id. refl }

-- A report awaits delivery.
abbrev stocked : Agent Unit
stocked = record idle {
  conn = (enqueue_outbox plain 3 (utf8 "r") (utf8 "a") (utf8 "{}") idle.conn).1;
}

stocked_awaits : awaits (utf8 "r") stocked.conn.db ≡ true
unfolding enqueue_outbox exec upsert find str_eq
stocked_awaits = refl

-- One row waits, and the pause lasts until 100.
abbrev paused : Agent Unit
paused = record busy { paused_until = 100 }

abbrev break : List Event
break =
    changed 7 (utf8 "/w/app")
    ∷ woke 5 (λ n. 8)
    ∷ requested 9 (request (utf8 "/api/status"))
    ∷ changed 99 (utf8 "/w/app")
    ∷ []

break-is_within : All (λ e. is_within paused.paused_until e ≡ true) break
unfolding str_eq
break-is_within = (refl, (refl, (refl, (refl, tt))))

run-waiting_example : waiting (run small break paused).conn.db ≤ waiting paused.conn.db
run-waiting_example = run-waiting small break paused break-is_within
