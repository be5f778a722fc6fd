-- ===== src/Debounce/Scheduled.antt =====
-- What runs of the debouncer of Debounce.Defs keep.
use director_orson_callan_kr.Base.{
  ℕ, Bytes, ◌≡◌, refl, Bool, true, false, ◌||◌, Option, none, some, List, [], ◌∷◌, arith, str_eq,
  str_eq_iff, str_eq_refl, Option-cases, inl, inr, Bool-cases,
}
use director_orson_callan_kr.Model.{Time}
use director_orson_callan_kr.Sql.Table.{find, find-remove}
use director_orson_callan_kr.Debounce.Defs.{
  KeyState, Timer, Debouncer, new, disarm, trigger, trigger_state, take_ready, is_ready, fire,
  is_armed, expire, stop, Event, triggered, expired, fired, ran, stopped, call_fn, step, run,
}

-- A key with a state has its timer running, or a goroutine on the way to `fire`.
abbrev pub is_scheduled : Bytes → Option KeyState → List Timer → List Bytes → Bool
is_scheduled key none armed ready = true
is_scheduled key (some st) armed ready = is_armed st.timer key armed || is_ready key ready

-- It holds of every key until Stop.
abbrev pub IsScheduled : Bytes → Debouncer → Type 0
IsScheduled key d = (d.closed || is_scheduled key (find key d.states) d.armed d.ready) ≡ true

is_armed-disarm :
    (id i : ℕ) (key k : Bytes) (ts : List Timer)
    → str_eq k key ≡ false
    → is_armed i k (disarm id key ts) ≡ is_armed i k ts
unfolding disarm
is_armed-disarm id i key k [] ne = refl
is_armed-disarm id i key k (t ∷ ts) ne = ground (
  arith,
  is_armed-disarm id i key k ts ne,
  str_eq_iff t.key key,
  str_eq_iff t.key k,
  str_eq_iff k key,
)

is_ready-take_ready :
    (key k : Bytes) (ks : List Bytes)
    → str_eq key k ≡ false
    → is_ready k (take_ready key ks) ≡ is_ready k ks
unfolding take_ready
is_ready-take_ready key k [] ne = refl
is_ready-take_ready key k (j ∷ ks) ne =
    ground
      (arith, is_ready-take_ready key k ks ne, str_eq_iff j key, str_eq_iff j k, str_eq_iff key k)

pub trigger_state-closed :
    (key : Bytes) (now : Time) (o : Option KeyState) (d : Debouncer)
    → (trigger_state key now o d).closed ≡ d.closed
unfolding trigger_state
trigger_state-closed key now none d = refl
trigger_state-closed key now (some st) d = ground arith

trigger-scheduled :
    (key k : Bytes) (now : Time) (o : Option KeyState) (d : Debouncer)
    → find key d.states ≡ o
    → is_scheduled k (find k d.states) d.armed d.ready ≡ true
    → is_scheduled k
        (find k (trigger_state key now o d).states)
        (trigger_state key now o d).armed
        (trigger_state key now o d).ready
      ≡ true
unfolding trigger_state find
trigger-scheduled key k now none d e h =
    ground (arith, find-remove key k d.states, str_eq_iff key k)
trigger-scheduled key k now (some st) d e h = elim (Bool-cases (str_eq k key)) [
  | inl same ↦ ground (arith, str_eq_iff k key, str_eq_iff key k, str_eq_refl key)
  | inr ne ↦ elim (Option-cases (find k d.states)) [
    | inl e ↦ ground (arith, str_eq_iff k key, str_eq_iff key k)
    | inr (st', e') ↦ ground (
      arith,
      is_armed-disarm st.timer st'.timer key k d.armed ne,
      str_eq_iff k key,
      str_eq_iff key k,
    )
  ]
]

pub trigger-IsScheduled :
    (key k : Bytes) (now : Time) (d : Debouncer)
    → IsScheduled k d
    → IsScheduled k (trigger key now d)
unfolding trigger
trigger-IsScheduled key k now d h = ground (
  arith,
  trigger-scheduled key k now (find key d.states) d refl,
  trigger_state-closed key now (find key d.states) d,
)

fire-IsScheduled : (key k : Bytes) (d : Debouncer) → IsScheduled k d → IsScheduled k (fire key d)
unfolding fire
fire-IsScheduled key k d h = elim (Bool-cases (str_eq key k)) [
  | inl same ↦ ground (arith, h, find-remove key k d.states)
  | inr ne ↦ ground (arith, h, find-remove key k d.states, is_ready-take_ready key k d.ready ne)
]

expire-IsScheduled :
    (id : ℕ) (key k : Bytes) (now : Time) (d : Debouncer)
    → IsScheduled k d
    → IsScheduled k (expire id key now d)
unfolding expire
expire-IsScheduled id key k now d h = elim (Bool-cases (str_eq k key)) [
  | inl same ↦ ground (arith, h, str_eq_iff k key, str_eq_refl key)
  | inr ne ↦ elim (Option-cases (find k d.states)) [
    | inl e ↦ ground (arith, h)
    | inr (st, e) ↦
        ground (
          arith,
          h,
          is_armed-disarm id st.timer key k d.armed ne,
          str_eq_iff key k,
          str_eq_iff k key,
        )
  ]
]

pub step-IsScheduled :
    (e : Event) (k : Bytes) (d : Debouncer) → IsScheduled k d → IsScheduled k (step d e)
unfolding step stop call_fn
step-IsScheduled (triggered key now) k d h = trigger-IsScheduled key k now d h
step-IsScheduled (expired id key now) k d h = expire-IsScheduled id key k now d h
step-IsScheduled (fired key) k d h = fire-IsScheduled key k d h
step-IsScheduled (ran key) k d h = ground (arith, h)
step-IsScheduled stopped k d h = refl

run-IsScheduled :
    (es : List Event) (k : Bytes) (d : Debouncer) → IsScheduled k d → IsScheduled k (run d es)
unfolding run
run-IsScheduled [] k d h = h
run-IsScheduled (e ∷ es) k d h = run-IsScheduled es k (step d e) (step-IsScheduled e k d h)

-- No trigger is forgotten: after any sequence of triggers, expiries, goroutines of `fire` and stops
-- of a new debouncer, a key that has a state either has its timer running or a goroutine on the way
-- to `fire`, unless the debouncer is closed.
pub new-IsScheduled :
    (wait max_wait : ℕ) (es : List Event) (key : Bytes)
    → IsScheduled key (run (new wait max_wait) es)
unfolding new find
new-IsScheduled wait max_wait es key = run-IsScheduled es key (new wait max_wait) refl
