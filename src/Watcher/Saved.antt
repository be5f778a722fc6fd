-- ===== src/Watcher/Saved.antt =====
-- What becomes of a saved file.
use director_orson_callan_kr.Base.{
  ℕ, Bytes, ◌≡◌, refl, Bool, true, false, ◌&&◌, ◌||◌, Option, none, some, List, [], ◌∷◌, any, arith,
  ltb, length, str_eq_refl, ◌∙◌, subst, Option-cases, inl, inr,
}
use director_orson_callan_kr.Model.{Time}
use director_orson_callan_kr.Sql.Table.{find}
use director_orson_callan_kr.Debounce.Defs.{
  KeyState, Timer, Debouncer, new, trigger, trigger_state, is_ready, is_armed,
}
use director_orson_callan_kr.Debounce.Scheduled.{
  IsScheduled, trigger_state-closed, trigger-IsScheduled, step-IsScheduled,
}
use director_orson_callan_kr.Watcher.Defs.{is_ignored, contains, repo_root_for}
use director_orson_callan_kr.Watcher.Events.{
  FileSystem, FileEvent, is_relevant, report, handle, start, watch_created,
}
use director_orson_callan_kr.Watcher.Reported.{handle-reports}
use director_orson_callan_kr.Watcher.Plane.{
  Plane, Input, saved, timed, new_plane, on_change, step, run,
}

-- The key has a state, whose timer runs or for which a goroutine is on the way to `fire`.
abbrev pub is_awaited : Bytes → Option KeyState → List Timer → List Bytes → Bool
is_awaited key none armed ready = false
is_awaited key (some st) armed ready = is_armed st.timer key armed || is_ready key ready

abbrev pub IsAwaited : Bytes → Debouncer → Type 0
IsAwaited key d = is_awaited key (find key d.states) d.armed d.ready ≡ true

trigger_state-find :
    (key : Bytes) (now : Time) (o : Option KeyState) (d : Debouncer)
    → find key d.states ≡ o
    → (st : KeyState) × (find key (trigger_state key now o d).states ≡ some st)
unfolding trigger_state find
trigger_state-find key now none d e =
    (record { timer = d.next_timer; first = now }, ground (arith, str_eq_refl key))
trigger_state-find key now (some st) d e = (st, ground arith)

-- A trigger of an open debouncer starts a period for the key, or finds one that runs.
trigger-IsAwaited :
    (key : Bytes) (now : Time) (d : Debouncer)
    → d.closed ≡ false
    → ((k : Bytes) → IsScheduled k d)
    → IsAwaited key (trigger key now d)
unfolding trigger
trigger-IsAwaited key now d opened h =
    let s = trigger-IsScheduled key key now d (h key) in
    let (st, e) = trigger_state-find key now (find key d.states) d refl in
    ground (arith, s, e, trigger_state-closed key now (find key d.states) d)

report-IsScheduled :
    (k root : Bytes) (now : Time) (d : Debouncer)
    → IsScheduled k d
    → IsScheduled k (report (on_change now) root d)
unfolding report
report-IsScheduled k root now d h = ground (arith, trigger-IsScheduled root k now d h)

step-keeps :
    (i : Input) (k : Bytes) (p : Plane)
    → IsScheduled k p.debouncer
    → IsScheduled k (step p i).debouncer
unfolding step handle
step-keeps (saved now fs ev) k p h =
    ground (arith, report-IsScheduled k (repo_root_for p.watcher.repos ev.name) now p.debouncer h)
step-keeps (timed e) k p h = step-IsScheduled e k p.debouncer h

trigger_state-emitted :
    (key : Bytes) (now : Time) (o : Option KeyState) (d : Debouncer)
    → (trigger_state key now o d).emitted ≡ d.emitted
unfolding trigger_state
trigger_state-emitted key now none d = refl
trigger_state-emitted key now (some st) d = ground arith

-- A save calls nothing and closes nothing.
pub saved-silent :
    (now : Time) (fs : FileSystem) (ev : FileEvent) (p : Plane)
    → ((step p (saved now fs ev)).debouncer.emitted ≡ p.debouncer.emitted)
      × ((step p (saved now fs ev)).debouncer.closed ≡ p.debouncer.closed)
unfolding step handle report trigger
saved-silent now fs ev p =
    let key = repo_root_for p.watcher.repos ev.name in
    let o = find key p.debouncer.states in
    let e = trigger_state-emitted key now o p.debouncer in
    let c = trigger_state-closed key now o p.debouncer in (ground (arith, e), ground (arith, c))

-- What is awaited has a timer that runs, or a goroutine.
pub IsAwaited-period :
    (key : Bytes) (d : Debouncer)
    → IsAwaited key d
    → (id : ℕ) × ((is_armed id key d.armed || is_ready key d.ready) ≡ true)
IsAwaited-period key d h = elim (Option-cases (find key d.states)) [
  | inl e ↦ absurd (cc (h, e))
  | inr (st, e) ↦ (st.timer, ground (arith, h, e))
]

step-repos : (i : Input) (p : Plane) → (step p i).watcher.repos ≡ p.watcher.repos
unfolding step handle watch_created
step-repos (saved now fs ev) p = ground arith
step-repos (timed e) p = refl

run-keeps :
    (is : List Input) (k : Bytes) (p : Plane)
    → IsScheduled k p.debouncer
    → IsScheduled k (run p is).debouncer
unfolding run
run-keeps [] k p h = h
run-keeps (i ∷ is) k p h = run-keeps is k (step p i) (step-keeps i k p h)

run-repos : (is : List Input) (p : Plane) → (run p is).watcher.repos ≡ p.watcher.repos
unfolding run
run-repos [] p = refl
run-repos (i ∷ is) p = run-repos is (step p i) ∙ step-repos i p

step-IsAwaited :
    (p : Plane) (now : Time) (fs : FileSystem) (ev : FileEvent)
    → ((k : Bytes) → IsScheduled k p.debouncer)
    → p.debouncer.closed ≡ false
    → is_ignored ev.name ≡ false
    → is_relevant ev ≡ true
    → any (λ root. contains ev.name root && ltb 0 (length root)) p.watcher.repos ≡ true
    → IsAwaited (repo_root_for p.watcher.repos ev.name) (step p (saved now fs ev)).debouncer
unfolding step
step-IsAwaited p now fs ev h opened clear relevant inside =
    rw (handle-reports (on_change now) fs ev p.watcher p.debouncer clear relevant inside)
      (trigger-IsAwaited (repo_root_for p.watcher.repos ev.name) now p.debouncer opened h)

module _ (wait max_wait : ℕ) (disk : FileSystem) (repos : List Bytes) (is : List Input) where
  -- What a new watcher and a new debouncer become under some inputs.
  abbrev pub after : Plane
  after = run (new_plane wait max_wait disk repos) is

  after-IsScheduled : (k : Bytes) → IsScheduled k after.debouncer
  unfolding new_plane new find
  after-IsScheduled k = run-keeps is k (new_plane wait max_wait disk repos) refl

  after-repos : after.watcher.repos ≡ repos
  unfolding new_plane start
  after-repos = run-repos is (new_plane wait max_wait disk repos)

-- No save is lost on the way to the debouncer: after any inputs that leave the debouncer open, a
-- save, creation, deletion or renaming, at a path with no ignored component that a configured root
-- contains, leaves a period for the longest such root: its timer runs, or a goroutine is on the way
-- to `fire`.
pub saved-IsAwaited :
    (wait max_wait : ℕ) (disk : FileSystem) (repos : List Bytes) (is : List Input) (now : Time)
    (fs : FileSystem) (ev : FileEvent)
    → (after wait max_wait disk repos is).debouncer.closed ≡ false
    → is_ignored ev.name ≡ false
    → is_relevant ev ≡ true
    → any (λ root. contains ev.name root && ltb 0 (length root)) repos ≡ true
    → IsAwaited
        (repo_root_for repos ev.name)
        (step (after wait max_wait disk repos is) (saved now fs ev)).debouncer
saved-IsAwaited wait max_wait disk repos is now fs ev opened clear relevant inside =
    let p = after wait max_wait disk repos is in
    subst
      (λ (rs : List Bytes).
        any (λ root. contains ev.name root && ltb 0 (length root)) rs ≡ true
        → IsAwaited (repo_root_for rs ev.name) (step p (saved now fs ev)).debouncer)
      (after-repos wait max_wait disk repos is)
      (step-IsAwaited p now fs ev (after-IsScheduled wait max_wait disk repos is) opened clear
        relevant)
      inside
