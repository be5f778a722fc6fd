-- ===== src/Watcher/Plane.antt =====
-- krennic/internal/agent/agent.go: the watcher and the debouncer as Run connects them, under the
-- events that reach them. The calls of handleChange are what the debouncer has emitted.
use director_orson_callan_kr.Base.{ℕ, Bytes, List, [], ◌∷◌}
use director_orson_callan_kr.Model.{Time}
use director_orson_callan_kr.Debounce.Defs.{Debouncer, Event, trigger}
use director_orson_callan_kr.Debounce.Defs as Debounce
use director_orson_callan_kr.Watcher.Events.{FileSystem, FileEvent, Watcher, start, handle}

pub record Plane : Type 0 where
  pub watcher : Watcher
  pub debouncer : Debouncer

-- An event of fsnotify that the loop handles, or one of the debouncer's: a timer, a goroutine of
-- `fire`, Stop.
pub data Input : Type 0 where
  saved : Time → FileSystem → FileEvent → Input
  timed : Event → Input

unfoldable pub new_plane : ℕ → ℕ → FileSystem → List Bytes → Plane
new_plane wait max_wait fs repos = record {
  watcher = start fs (record { repos = repos; watched = [] });
  debouncer = Debounce.new wait max_wait;
}

-- The callback of the watcher triggers the debouncer.
abbrev pub on_change : Time → Bytes → Debouncer → Debouncer
on_change now root d = trigger root now d

unfoldable pub step : Plane → Input → Plane
unfolding handle
step p (saved now fs ev) =
    let (w, d) = handle (on_change now) fs ev (p.watcher, p.debouncer) in
    record { watcher = w; debouncer = d }
step p (timed e) = record p { debouncer = Debounce.step p.debouncer e }

unfoldable pub run : Plane → List Input → Plane
unfolding step
run p [] = p
run p (i ∷ is) = run (step p i) is
