-- ===== src/Debounce/Examples.antt =====
-- The theorems on krennic/internal/debounce/debounce.go at small runs.
use director_orson_callan_kr.Base.{◌≤◌, ◌+◌, Bytes, ◌≡◌, refl, List, [], ◌∷◌, str_eq, utf8}
use director_orson_callan_kr.Sql.Table.{find, remove}
use director_orson_callan_kr.Debounce.Defs.{
  Debouncer, new, disarm, trigger, trigger_state, take_ready, fire, call_fn, is_due, expire, stop,
  Event, triggered, expired, fired, ran, step, run,
}
use director_orson_callan_kr.Debounce.Scheduled.{IsScheduled, new-IsScheduled}
use director_orson_callan_kr.Debounce.Stopped.{count, run-stop}

abbrev here : Bytes
here = utf8 "/repo"

abbrev there : Bytes
there = utf8 "/other"

-- Two triggers for one key, one for another, and both timers expire.
abbrev busy : List Event
busy =
    triggered here 0
    ∷ triggered there 2
    ∷ triggered here 3
    ∷ expired 0 here 8
    ∷ expired 1 there 8
    ∷ []

abbrev due : Debouncer
due = run (new 5 20) busy

calls_once :
    (run due (fired here ∷ ran here ∷ fired there ∷ fired here ∷ ran there ∷ [])).emitted
    ≡ there ∷ here ∷ []
unfolding run step trigger trigger_state fire call_fn expire is_due disarm take_ready new find
    remove str_eq
calls_once = refl

at_latest :
    (run
      (new 5 7)
      (triggered here 0 ∷ triggered here 4 ∷ triggered here 7 ∷ fired here ∷ ran here ∷ [])).emitted
    ≡ here ∷ []
unfolding run step trigger trigger_state fire call_fn expire is_due disarm take_ready new find
    remove str_eq
at_latest = refl

new-IsScheduled_example : IsScheduled here due
new-IsScheduled_example = new-IsScheduled 5 20 busy here

-- One goroutine has left the mutex when Stop comes, and one has not.
abbrev halfway : Debouncer
halfway = run due (fired here ∷ [])

run-stop_example :
    count here (run (stop halfway) (ran here ∷ fired there ∷ ran there ∷ [])).emitted
    ≤ count here halfway.emitted + count here halfway.calling
run-stop_example = run-stop (ran here ∷ fired there ∷ ran there ∷ []) here halfway

-- The callback is called after Stop.
late : (run (stop halfway) (ran here ∷ fired there ∷ ran there ∷ [])).emitted ≡ here ∷ []
unfolding run step stop trigger trigger_state fire call_fn expire is_due disarm take_ready new find
    remove str_eq
late = refl
