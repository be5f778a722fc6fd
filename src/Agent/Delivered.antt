-- ===== src/Agent/Delivered.antt =====
-- How a report leaves the outbox in a run of the daemon.
use director_orson_callan_kr.Base.{
  ℕ, ◌≡◌, refl, Bytes, Bool, true, false, ◌⊎◌, inl, inr, All, List, [], ◌∷◌, Option, some,
  Option-cases,
}
use director_orson_callan_kr.Store.Lifecycle.Defs.{Op, delete_outbox_op}
use director_orson_callan_kr.Agent.Defs.{World, Agent}
use director_orson_callan_kr.Agent.Outbox.{send_outbox}
use director_orson_callan_kr.Agent.Performs.{is_work}
use director_orson_callan_kr.Agent.Daemon.{
  Event, started, changed, woke, ticked, requested, allows, step, run,
}
use director_orson_callan_kr.Agent.Awaits.{awaits, deletes, apply_all-awaits}
use director_orson_callan_kr.Agent.Delivery.{Accepts, tick-Kept}
use director_orson_callan_kr.Agent.Refines.{step-Performs}

abbrev is_tick : Event → Bool
is_tick ticked = true
is_tick _ = false

-- Every other event leaves the reports of the outbox there.
keeps : (e : Event) → is_tick e ≡ false → (op : Op) → allows e op ≡ true → deletes op ≡ false
unfolding allows deletes is_work
keeps ticked n op h = absurd (cc n)
keeps started n (delete_outbox_op id) h = absurd (cc h)
keeps (changed now root) n (delete_outbox_op id) h = absurd (cc h)
keeps (woke fuel clock) n (delete_outbox_op id) h = absurd (cc h)
keeps (requested now r) n (delete_outbox_op id) h = absurd (cc h)
keeps _ n _ h = refl

module _ {G : Type 0} (w : World G) (id : Bytes) where
  -- At this event, the hub takes the report.
  abbrev pub TakenAt : Event → Agent G → Type 0
  TakenAt e a =
      (e ≡ ticked)
      × ((send : ℕ → Bytes → Option Bytes) × (w.hub ≡ some send)
          × Accepts send id a.conn.db.outbox a.sent (step w e a).sent)

  -- At one of these events, the hub takes the report.
  unfoldable pub Taken : List Event → Agent G → Type 0
  Taken [] a = ⊥
  Taken (e ∷ es) a = TakenAt e a ⊎ Taken es (step w e a)

  Performs-awaits :
      (e : Event) (a : Agent G)
      → ((op : Op) → allows e op ≡ true → deletes op ≡ false)
      → awaits id a.conn.db ≡ true
      → awaits id (step w e a).conn.db ≡ true
  Performs-awaits e a keeps h =
      let (ops, k, q) = step-Performs w e a in
      rw q (apply_all-awaits w.library ops id a.conn (all_keep ops k) h)
    where
      all_keep :
          (ops : List Op) → All (λ op. allows e op ≡ true) ops → All (λ op. deletes op ≡ false) ops
      all_keep [] k = tt
      all_keep (op ∷ ops) k = (keeps op k.0, all_keep ops k.1)

  step-Kept :
      (e : Event) (a : Agent G)
      → awaits id a.conn.db ≡ true
      → (awaits id (step w e a).conn.db ≡ true) ⊎ TakenAt e a
  unfolding step send_outbox
  step-Kept ticked a h = elim (Option-cases w.hub) [
    | inl k ↦ rw (k, send_outbox) (inl h)
    | inr (send, k) ↦ elim (tick-Kept w id send a h) [
      | inl q ↦ rw (k, send_outbox) (inl q)
      | inr q ↦ rw (k, send_outbox) (inr (refl, (send, refl, q)))
    ]
  ]
  step-Kept started a h = inl (Performs-awaits started a (keeps started refl) h)
  step-Kept (changed now root) a h =
      inl (Performs-awaits (changed now root) a (keeps (changed now root) refl) h)
  step-Kept (woke fuel clock) a h =
      inl (Performs-awaits (woke fuel clock) a (keeps (woke fuel clock) refl) h)
  step-Kept (requested now r) a h =
      inl (Performs-awaits (requested now r) a (keeps (requested now r) refl) h)

  -- No report is lost: in any run of the daemon, with any failures, a report of the outbox is still
  -- there at the end, or at a tick of the outbox sender the hub took a payload that the outbox had
  -- for it.
  pub run-delivers :
      (es : List Event) (a : Agent G)
      → awaits id a.conn.db ≡ true
      → (awaits id (run w es a).conn.db ≡ true) ⊎ Taken es a
  unfolding run Taken
  run-delivers [] a h = inl h
  run-delivers (e ∷ es) a h = elim (step-Kept e a h) [
    | inr t ↦ inr (inl t)
    | inl k ↦ elim (run-delivers es (step w e a) k) [ inl q ↦ inl q | inr t ↦ inr (inr t) ]
  ]
