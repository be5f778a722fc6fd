-- ===== src/Agent/Handled.antt =====
-- krennic/internal/agent/agent.go: what the wired daemon makes of a saved file.
use director_orson_callan_kr.Base.{
  ℕ, Bytes, ◌≡◌, refl, true, false, ◌||◌, none, some, List, [], ◌∷◌, arith, ltb, length, Bool-cases,
  inl, inr, ◌∙◌,
}
use director_orson_callan_kr.Model.{Time}
use director_orson_callan_kr.Debounce.Defs.{
  Debouncer, KeyState, is_armed, is_ready, is_due, expire, fire, expired, fired, ran,
}
use director_orson_callan_kr.Debounce.Settled.{
  is_armed-is_due, fire-calling, fire-emitted, call_fn-emitted, expire-ready, expire-keeps,
  expire-closed, expire-emitted,
}
use director_orson_callan_kr.Watcher.Plane.{Plane, saved, timed}
use director_orson_callan_kr.Watcher.Plane as Plane
use director_orson_callan_kr.Debounce.Defs as Debounce
use director_orson_callan_kr.Agent.Defs.{World, handle_change}
use director_orson_callan_kr.Agent.Wired.{Wired, Event, noticed, called, call, step, run}

length-∷ : (x : Bytes) (xs : List Bytes) → ltb (length xs) (length (x ∷ xs)) ≡ true
length-∷ x xs = ground arith

pub called-same : (xs : List Bytes) → called xs xs ≡ none
called-same [] = refl
called-same (x ∷ xs) = ground arith

called-∷ : (x : Bytes) (xs : List Bytes) → called xs (x ∷ xs) ≡ some x
called-∷ x xs = ground arith

module _ {G : Type 0} (w : World G) (now : Time) (key : Bytes) where
  -- The call of a goroutine that has left the mutex makes the daemon handle the change.
  step-ran :
      (s : Wired G)
      → is_ready key s.plane.debouncer.calling ≡ true
      → (step w (noticed now (timed (ran key))) s).agent ≡ handle_change w now key s.agent
  unfolding step Plane.step call Debounce.step handle_change
  step-ran s r =
      rw (call_fn-emitted key s.plane.debouncer r)
        (rw (called-∷ key s.plane.debouncer.emitted) refl)

  -- The critical section of `fire` leaves the daemon alone.
  step-fired : (s : Wired G) → (step w (noticed now (timed (fired key))) s).agent ≡ s.agent
  unfolding step Plane.step call Debounce.step
  step-fired s =
      rw (fire-emitted key s.plane.debouncer) (rw (called-same s.plane.debouncer.emitted) refl)

  fired-plane :
      (s : Wired G)
      → (step w (noticed now (timed (fired key))) s).plane.debouncer ≡ fire key s.plane.debouncer
  unfolding step Plane.step Debounce.step
  fired-plane s = refl

  -- Both of them.
  fires-handled :
      (s : Wired G)
      → s.plane.debouncer.closed ≡ false
      → is_ready key s.plane.debouncer.ready ≡ true
      → (run w (noticed now (timed (fired key)) ∷ noticed now (timed (ran key)) ∷ []) s).agent
        ≡ handle_change w now key s.agent
  unfolding run
  fires-handled s h r =
      let s' = step w (noticed now (timed (fired key))) s in
      rw (step-ran s' (rw (fired-plane s) (fire-calling key s.plane.debouncer h r)))
        (rw (step-fired s) refl)

  -- A timer's expiry leaves the daemon alone.
  step-expired :
      (id : ℕ) (later : Time) (s : Wired G)
      → (step w (noticed now (timed (expired id key later))) s).agent ≡ s.agent
  unfolding step Plane.step call Debounce.step
  step-expired id later s =
      rw (expire-emitted key id later s.plane.debouncer)
        (rw (called-same s.plane.debouncer.emitted) refl)

  expired-plane :
      (id : ℕ) (later : Time) (s : Wired G)
      → (step w (noticed now (timed (expired id key later))) s).plane.debouncer
        ≡ expire id key later s.plane.debouncer
  unfolding step Plane.step Debounce.step
  expired-plane id later s = refl

  -- The timer's expiry, and the goroutine that it starts or that is on its way.
  abbrev pub ends : ℕ → Time → List Event
  ends id due =
      noticed now (timed (expired id key due))
      ∷ noticed now (timed (fired key))
      ∷ noticed now (timed (ran key))
      ∷ []

  ends-handled :
      (id : ℕ) (due : Time) (s : Wired G)
      → s.plane.debouncer.closed ≡ false
      → is_ready key (expire id key due s.plane.debouncer).ready ≡ true
      → (run w (ends id due) s).agent ≡ handle_change w now key s.agent
  unfolding run
  ends-handled id due s h r =
      let d = s.plane.debouncer in
      let s' = step w (noticed now (timed (expired id key due))) s in
      let q = expired-plane id due s in
      rw (fires-handled s' (rw q (expire-closed key id due d ∙ h)) (rw q r))
        (rw (step-expired id due s) refl)

  -- A period for the key ends with a handleChange.
  pub period-handled :
      (id : ℕ) (s : Wired G)
      → s.plane.debouncer.closed ≡ false
      → (is_armed id key s.plane.debouncer.armed || is_ready key s.plane.debouncer.ready) ≡ true
      → (due : Time) × ((run w (ends id due) s).agent ≡ handle_change w now key s.agent)
  period-handled id s h p =
      let d = s.plane.debouncer in
      elim (Bool-cases (is_armed id key d.armed)) [
        | inr e ↦ (0, ends-handled id 0 s h (expire-keeps key id 0 d (ground (arith, p, e))))
        | inl e ↦
            let (due, is_now) = is_armed-is_due id key d.armed e in
            (due, ends-handled id due s h (expire-ready key id due d is_now))
      ]
