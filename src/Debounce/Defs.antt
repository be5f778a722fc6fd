-- ===== src/Debounce/Defs.antt =====
-- krennic/internal/debounce/debounce.go: the debouncer with its timers and goroutines. `armed`
-- holds the timers that run, and `ready` the keys of the goroutines that are about to enter `fire`,
-- started by a timer or by `go d.fire(key)`; `calling` holds those of the goroutines that have left the
-- mutex and are about to call `fn`; `emitted` holds the calls of `fn`, the newest first. The mutex
-- makes each function one step, but for `fire`, which calls `fn` behind its critical section. A timer is known by the number it got when its state was
-- made, with the key of that state. The periods are not negative.
use director_orson_callan_kr.Base.{
  ℕ, ◌+◌, Bytes, Bool, true, false, ◌&&◌, Option, none, some, List, [], ◌∷◌, ltb, leb, ◌==◌, str_eq,
  if◌then◌else◌,
}
use director_orson_callan_kr.Model.{Time}
use director_orson_callan_kr.Sql.Table.{Table, find, remove}

pub record KeyState : Type 0 where
  pub timer : ℕ
  pub first : Time

pub record Timer : Type 0 where
  pub id : ℕ
  pub key : Bytes
  pub deadline : Time

pub record Debouncer : Type 0 where
  pub wait : ℕ
  pub max_wait : ℕ
  pub states : Table KeyState
  pub closed : Bool
  pub armed : List Timer
  pub ready : List Bytes
  pub calling : List Bytes
  pub emitted : List Bytes
  pub next_timer : ℕ

unfoldable pub new : ℕ → ℕ → Debouncer
new wait max_wait = record {
  wait = wait;
  max_wait = max_wait;
  states = [];
  closed = false;
  armed = [];
  ready = [];
  calling = [];
  emitted = [];
  next_timer = 0;
}

abbrev pub is_timer : ℕ → Bytes → Timer → Bool
is_timer id key t = t.id == id && str_eq t.key key

-- timer.Stop
unfoldable pub disarm : ℕ → Bytes → List Timer → List Timer
disarm id key [] = []
disarm id key (t ∷ ts) = let rest = disarm id key ts in if is_timer id key t then rest else t ∷ rest

-- The map holds one state for a key.
abbrev pub put_state : Bytes → KeyState → Table KeyState → Table KeyState
put_state key st states = (key, st) ∷ remove key states

-- Trigger behind the test of `closed`, with the state of the key.
unfoldable pub trigger_state : Bytes → Time → Option KeyState → Debouncer → Debouncer
unfolding disarm
trigger_state key now none d = record d {
  states = put_state key (record { timer = d.next_timer; first = now }) d.states;
  armed = record { id = d.next_timer; key = key; deadline = now + d.wait } ∷ d.armed;
  next_timer = d.next_timer + 1;
}
trigger_state key now (some st) d =
    if ltb 0 d.max_wait && leb (st.first + d.max_wait) now
    then record d { armed = disarm st.timer key d.armed; ready = key ∷ d.ready }
    else record d {
      armed =
          record { id = st.timer; key = key; deadline = now + d.wait }
          ∷ disarm st.timer key d.armed;
    }

unfoldable pub trigger : Bytes → Time → Debouncer → Debouncer
unfolding trigger_state
trigger key now d = if d.closed then d else trigger_state key now (find key d.states) d

-- The goroutine for one occurrence of the key leaves `ready`.
unfoldable pub take_ready : Bytes → List Bytes → List Bytes
take_ready key [] = []
take_ready key (k ∷ ks) = if str_eq k key then ks else k ∷ take_ready key ks

abbrev pub is_ready : Bytes → List Bytes → Bool
is_ready key [] = false
is_ready key (k ∷ ks) = if str_eq k key then true else is_ready key ks

-- The critical section of a goroutine of `fire`, if there is one for the key.
unfoldable pub fire : Bytes → Debouncer → Debouncer
unfolding take_ready
fire key d =
    if is_ready key d.ready
    then (if d.closed then record d { ready = take_ready key d.ready } else record d {
      ready = take_ready key d.ready;
      states = remove key d.states;
      calling = key ∷ d.calling;
    })
    else d

-- The call of `fn` by a goroutine that has left the mutex.
unfoldable pub call_fn : Bytes → Debouncer → Debouncer
unfolding take_ready
call_fn key d =
    if is_ready key d.calling
    then record d { calling = take_ready key d.calling; emitted = key ∷ d.emitted }
    else d

abbrev pub is_armed : ℕ → Bytes → List Timer → Bool
is_armed id key [] = false
is_armed id key (t ∷ ts) = if is_timer id key t then true else is_armed id key ts

-- A timer that is due: its goroutine starts.
unfoldable pub is_due : ℕ → Bytes → Time → List Timer → Bool
is_due id key now [] = false
is_due id key now (t ∷ ts) =
    if is_timer id key t && leb t.deadline now then true else is_due id key now ts

unfoldable pub expire : ℕ → Bytes → Time → Debouncer → Debouncer
unfolding is_due disarm
expire id key now d =
    if is_due id key now d.armed
    then record d { armed = disarm id key d.armed; ready = key ∷ d.ready }
    else d

disarm_all : Table KeyState → List Timer → List Timer
unfolding disarm
disarm_all [] ts = ts
disarm_all ((key, st) ∷ states) ts = disarm_all states (disarm st.timer key ts)

unfoldable pub stop : Debouncer → Debouncer
unfolding disarm_all
stop d = record d { closed = true; armed = disarm_all d.states d.armed; states = [] }

pub data Event : Type 0 where
  triggered : Bytes → Time → Event
  expired : ℕ → Bytes → Time → Event
  fired : Bytes → Event
  ran : Bytes → Event
  stopped : Event

unfoldable pub step : Debouncer → Event → Debouncer
step d (triggered key now) = trigger key now d
step d (expired id key now) = expire id key now d
step d (fired key) = fire key d
step d (ran key) = call_fn key d
step d stopped = stop d

unfoldable pub run : Debouncer → List Event → Debouncer
unfolding step
run d [] = d
run d (e ∷ es) = run (step d e) es
