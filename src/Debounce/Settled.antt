-- ===== src/Debounce/Settled.antt =====
-- krennic/internal/debounce/debounce.go: how a period of the debouncer ends.
use director_orson_callan_kr.Base.{
  ℕ, Bytes, ◌≡◌, true, false, List, [], ◌∷◌, arith, str_eq_refl, Bool-cases, inl, inr,
}
use director_orson_callan_kr.Model.{Time}
use director_orson_callan_kr.Debounce.Defs.{
  Timer, Debouncer, is_timer, is_armed, is_ready, is_due, expire, fire, call_fn,
}

-- A timer that runs is due some time.
pub is_armed-is_due :
    (id : ℕ) (key : Bytes) (ts : List Timer)
    → is_armed id key ts ≡ true
    → (now : Time) × (is_due id key now ts ≡ true)
unfolding is_due
is_armed-is_due id key [] h = cc
is_armed-is_due id key (t ∷ ts) h = elim (Bool-cases (is_timer id key t)) [
  | inl e ↦ (t.deadline, ground (arith, e))
  | inr e ↦
      let (now, due) = is_armed-is_due id key ts (ground (arith, h, e)) in
      (now, ground (arith, due, e))
]

-- A goroutine of `fire` leaves the mutex to call the callback.
pub fire-calling :
    (key : Bytes) (d : Debouncer)
    → d.closed ≡ false
    → is_ready key d.ready ≡ true
    → is_ready key (fire key d).calling ≡ true
unfolding fire
fire-calling key d h r = ground (arith, str_eq_refl key)

pub fire-emitted : (key : Bytes) (d : Debouncer) → (fire key d).emitted ≡ d.emitted
unfolding fire
fire-emitted key d = ground arith

pub call_fn-emitted :
    (key : Bytes) (d : Debouncer)
    → is_ready key d.calling ≡ true
    → (call_fn key d).emitted ≡ key ∷ d.emitted
unfolding call_fn
call_fn-emitted key d r = ground arith

pub expire-ready :
    (key : Bytes) (id : ℕ) (now : Time) (d : Debouncer)
    → is_due id key now d.armed ≡ true
    → is_ready key (expire id key now d).ready ≡ true
unfolding expire
expire-ready key id now d due = ground (arith, due, str_eq_refl key)

-- A timer's expiry leaves a goroutine on its way.
pub expire-keeps :
    (key : Bytes) (id : ℕ) (now : Time) (d : Debouncer)
    → is_ready key d.ready ≡ true
    → is_ready key (expire id key now d).ready ≡ true
unfolding expire
expire-keeps key id now d r = ground (arith, r)

pub expire-closed :
    (key : Bytes) (id : ℕ) (now : Time) (d : Debouncer) → (expire id key now d).closed ≡ d.closed
unfolding expire
expire-closed key id now d = ground arith

pub expire-emitted :
    (key : Bytes) (id : ℕ) (now : Time) (d : Debouncer) → (expire id key now d).emitted ≡ d.emitted
unfolding expire
expire-emitted key id now d = ground arith
