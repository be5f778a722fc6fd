-- ===== src/Agent/Saved.antt =====
-- krennic/internal/agent/agent.go: a saved file on its way from the watcher to the daemon.
use director_orson_callan_kr.Base.{
  ℕ, Bytes, ◌≡◌, refl, true, false, ◌&&◌, List, [], ◌∷◌, any, ltb, length, ◌∙◌, subst, sym,
}
use director_orson_callan_kr.Model.{Time}
use director_orson_callan_kr.Watcher.Defs.{is_ignored, contains, repo_root_for}
use director_orson_callan_kr.Watcher.Events.{FileSystem, FileEvent, is_relevant}
use director_orson_callan_kr.Watcher.Plane.{Plane, Input, saved, new_plane}
use director_orson_callan_kr.Watcher.Plane as Plane
use director_orson_callan_kr.Watcher.Saved.{IsAwaited-period, after, saved-IsAwaited, saved-silent}
use director_orson_callan_kr.Agent.Defs.{World, Agent, handle_change}
use director_orson_callan_kr.Agent.Wired.{Wired, Event, noticed, served, call, step, run}
use director_orson_callan_kr.Agent.Handled.{called-same, ends, period-handled}

-- What reaches the watcher and the debouncer.
abbrev pub inputs : List Event → List Input
inputs [] = []
inputs (noticed now i ∷ es) = i ∷ inputs es
inputs (served e ∷ es) = inputs es

module _ {G : Type 0} (w : World G) where
  run-plane : (es : List Event) (s : Wired G) → (run w es s).plane ≡ Plane.run s.plane (inputs es)
  unfolding run step Plane.run
  run-plane [] s = refl
  run-plane (noticed now i ∷ es) s = run-plane es (step w (noticed now i) s)
  run-plane (served e ∷ es) s = run-plane es (step w (served e) s)

  step-saved :
      (later now : Time) (fs : FileSystem) (ev : FileEvent) (s : Wired G)
      → (step w (noticed later (saved now fs ev)) s).agent ≡ s.agent
  unfolding step call
  step-saved later now fs ev s =
      rw (saved-silent now fs ev s.plane).0 (rw (called-same s.plane.debouncer.emitted) refl)

  module _ (wait max_wait : ℕ) (disk : FileSystem) (repos : List Bytes) where
    -- A run of the daemon, in which Run has just connected the parts.
    abbrev pub wired : List Event → Agent G → Wired G
    wired es a = run w es (record { plane = new_plane wait max_wait disk repos; agent = a })

    module _ (now later : Time) (fs : FileSystem) (ev : FileEvent) where
      -- The save, an expiry of a timer and a goroutine of `fire`, for its root.
      abbrev pub save_ends : ℕ → Time → List Event
      save_ends id due =
          noticed now (saved now fs ev) ∷ ends w later (repo_root_for repos ev.name) id due

      -- They make the daemon handle a change of the root.
      abbrev Handled : Wired G → Type 0
      Handled s =
          (id : ℕ) × (due : Time) × ((run w (save_ends id due) s).agent
            ≡ handle_change w later (repo_root_for repos ev.name) s.agent)

      after-Handled :
          (is : List Input) (a : Agent G)
          → (after wait max_wait disk repos is).debouncer.closed ≡ false
          → is_ignored ev.name ≡ false
          → is_relevant ev ≡ true
          → any (λ root. contains ev.name root && ltb 0 (length root)) repos ≡ true
          → Handled (record { plane = after wait max_wait disk repos is; agent = a })
      unfolding run
      after-Handled is a opened clear relevant inside =
          let key = repo_root_for repos ev.name in
          let p = after wait max_wait disk repos is in
          let s : Wired G = record { plane = p; agent = a } in
          let s' = step w (noticed now (saved now fs ev)) s in
          let h =
            saved-IsAwaited wait max_wait disk repos is now fs ev opened clear relevant inside in
          let (id, period) = IsAwaited-period key (Plane.step p (saved now fs ev)).debouncer h in
          let (due, e) =
            period-handled w later key id s' ((saved-silent now fs ev p).1 ∙ opened) period in
          (id, due, cc (e, step-saved now now fs ev s))

  -- After any events of the wired daemon that leave the debouncer open, a save, creation, deletion or
  -- renaming, at a path with no ignored component that a configured root contains, the expiry of a
  -- timer and a goroutine of `fire`, for the longest such root, make the daemon handle a change of it,
  -- at the clock that the callback reads.
  pub saved-handled :
      (wait max_wait : ℕ) (disk : FileSystem) (repos : List Bytes) (es : List Event) (a : Agent G)
      (now later : Time) (fs : FileSystem) (ev : FileEvent)
      → (wired wait max_wait disk repos es a).plane.debouncer.closed ≡ false
      → is_ignored ev.name ≡ false
      → is_relevant ev ≡ true
      → any (λ root. contains ev.name root && ltb 0 (length root)) repos ≡ true
      → (id : ℕ) × (due : Time) × ((run w
            (save_ends wait max_wait disk repos now later fs ev id due)
            (wired wait max_wait disk repos es a)).agent
          ≡ handle_change w later
              (repo_root_for repos ev.name)
              (wired wait max_wait disk repos es a).agent)
  saved-handled wait max_wait disk repos es a now later fs ev opened clear relevant inside =
      let s = wired wait max_wait disk repos es a in
      let e = run-plane es (record { plane = new_plane wait max_wait disk repos; agent = a }) in
      subst
        (λ (p : Plane).
          p.debouncer.closed ≡ false
          → Handled wait max_wait disk repos now later fs ev
              (record { plane = p; agent = s.agent }))
        (sym e)
        (λ o.
          after-Handled wait max_wait disk repos now later fs ev (inputs es) s.agent o clear
            relevant inside)
        opened
