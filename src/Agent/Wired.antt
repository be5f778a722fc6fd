-- ===== src/Agent/Wired.antt =====
-- krennic/internal/agent/agent.go: the watcher, the debouncer and the daemon as Run connects them: a
-- call of the debouncer's callback is a handleChange of the daemon.
use director_orson_callan_kr.Base.{
  Bytes, Option, none, some, List, [], ◌∷◌, ltb, length, if◌then◌else◌,
}
use director_orson_callan_kr.Model.{Time}
use director_orson_callan_kr.Watcher.Plane.{Plane, Input}
use director_orson_callan_kr.Watcher.Plane as Plane
use director_orson_callan_kr.Agent.Defs.{World, Agent, handle_change}
use director_orson_callan_kr.Agent.Daemon.{changed}
use director_orson_callan_kr.Agent.Daemon as Daemon

pub record Wired (G : Type 0) : Type 0 where
  pub plane : Plane
  pub agent : Agent G

-- An event of the watcher or of the debouncer, with the clock that its callback reads, or one of the
-- daemon's other goroutines, among which the callback is not.
pub data Event : Type 0 where
  noticed : Time → Input → Event
  served : Daemon.Event → Event

-- The root of the call that a step has made, from the calls before it and behind it.
abbrev pub called : List Bytes → List Bytes → Option Bytes
called before [] = none
called before (root ∷ after) =
    if ltb (length before) (length (root ∷ after)) then some root else none

module _ {G : Type 0} (w : World G) where
  unfoldable pub call : Time → Option Bytes → Agent G → Agent G
  call now none a = a
  call now (some root) a = handle_change w now root a

  unfoldable pub serve : Daemon.Event → Agent G → Agent G
  serve (changed now root) a = a
  serve e a = Daemon.step w e a

  unfoldable pub step : Event → Wired G → Wired G
  unfolding call serve
  step (noticed now i) s =
      let p = Plane.step s.plane i in
      record {
        plane = p;
        agent = call now (called s.plane.debouncer.emitted p.debouncer.emitted) s.agent;
      }
  step (served e) s = record s { agent = serve e s.agent }

  unfoldable pub run : List Event → Wired G → Wired G
  unfolding step
  run [] s = s
  run (e ∷ es) s = run es (step e s)
