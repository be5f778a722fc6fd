-- ===== src/Debounce/Stopped.antt =====
-- krennic/internal/debounce/debounce.go: what comes behind Stop.
use director_orson_callan_kr.Base.{
  ℕ, suc, ◌+◌, ◌≤◌, Bytes, ◌≡◌, refl, true, List, [], ◌∷◌, ◌∙◌, arith, str_eq, str_eq_iff,
  if◌then◌else◌, Bool-cases, inl, inr,
}
use director_orson_callan_kr.Debounce.Defs.{
  Debouncer, trigger, take_ready, is_ready, fire, expire, stop, call_fn, Event, triggered, expired,
  fired, ran, stopped, step, run,
}

-- How often a key is in a list.
unfoldable pub count : Bytes → List Bytes → ℕ
count k [] = 0
count k (j ∷ js) = let rest = count k js in if str_eq j k then suc rest else rest

count-take_ready :
    (key k : Bytes) (ks : List Bytes)
    → is_ready key ks ≡ true
    → count k (key ∷ take_ready key ks) ≡ count k ks
unfolding count take_ready
count-take_ready key k [] h = cc
count-take_ready key k (j ∷ ks) h = elim (Bool-cases (str_eq j key)) [
  | inl e ↦ ground (arith, e, str_eq_iff j key)
  | inr e ↦ ground (arith, e, h, count-take_ready key k ks (ground (arith, h, e)))
]

-- The calls of `fn` for the key, those included that a goroutine outside the mutex is about to make.
abbrev due_calls : Bytes → Debouncer → ℕ
due_calls k d = count k d.emitted + count k d.calling

call_fn-due : (key k : Bytes) (d : Debouncer) → due_calls k (call_fn key d) ≡ due_calls k d
unfolding call_fn count
call_fn-due key k d = elim (Bool-cases (is_ready key d.calling)) [
  | inr e ↦ ground (arith, e)
  | inl e ↦ ground (arith, e, count-take_ready key k d.calling e)
]

step-due :
    (e : Event) (k : Bytes) (d : Debouncer)
    → d.closed ≡ true
    → ((step d e).closed ≡ true) × (due_calls k (step d e) ≡ due_calls k d)
unfolding step trigger expire fire stop
step-due (triggered key now) k d h = ground (arith, h)
step-due (expired id key now) k d h = ground (arith, h)
step-due (fired key) k d h = ground (arith, h)
step-due (ran key) k d h = (unfold call_fn in ground (arith, h), call_fn-due key k d)
step-due stopped k d h = (refl, refl)

run-due :
    (es : List Event) (k : Bytes) (d : Debouncer)
    → d.closed ≡ true
    → due_calls k (run d es) ≡ due_calls k d
unfolding run
run-due [] k d h = refl
run-due (e ∷ es) k d h = let (c, m) = step-due e k d h in run-due es k (step d e) c ∙ m

-- Stop calls off every call of the callback but those under way: after Stop, whatever is triggered,
-- expires or was on the way to `fire`, the callback is called for a key at most as often as there are
-- goroutines that had left the mutex of `fire` for the key before Stop and not yet called it.
pub run-stop :
    (es : List Event) (k : Bytes) (d : Debouncer)
    → count k (run (stop d) es).emitted ≤ count k d.emitted + count k d.calling
unfolding stop
run-stop es k d = let h = run-due es k (stop d) refl in omega (arith, h)
