-- ===== src/Agent/Delivery.antt =====
-- How a report leaves the outbox.
use director_orson_callan_kr.Base.{
  ℕ, ◌+◌, ◌≡◌, refl, sym, subst, Bytes, true, false, ◌⊎◌, inl, inr, All, List, [], ◌∷◌, ◌++◌,
  append_assoc, ap, ◌∙◌, map, take, Option, none, some, Option-cases, Bool-cases, Result, ok, err,
  str_eq, str_eq_iff, length, arith,
}
use director_orson_callan_kr.Sql.{Conn, exec}
use director_orson_callan_kr.Sql.Table.{Table, find-update, find-remove}
use director_orson_callan_kr.Store.Schema.{OutboxRow, Db}
use director_orson_callan_kr.Store.Outbox.{
  OutboxItem, to_item, oldest_first, list_outbox, delete_outbox, inc_outbox_attempts, outbox_depth,
}
use director_orson_callan_kr.Agent.Defs.{World, Agent}
use director_orson_callan_kr.Agent.Outbox.{
  delivered_item, send_items, show_outbox, send_listed, tick,
}
use director_orson_callan_kr.Agent.Awaits.{awaits}
use director_orson_callan_kr.Agent.Listed.{
  is_row, IsItem, oldest_first-IsListed, items-IsItem, IsListed-self,
}

-- The hub took a payload that a row has under an id: among what was sent since `old`, with as many
-- before it as the hub had answered, stands such a payload.
abbrev pub Accepts :
    (ℕ → Bytes → Option Bytes) → Bytes → Table OutboxRow → List Bytes → List Bytes → Type 0
Accepts send id t old new =
    (later : List Bytes) × (payload : Bytes) × (before : List Bytes) × (new
      ≡ later ++ (payload ∷ (before ++ old)))
    × (is_row id payload t ≡ true)
    × (send (length (before ++ old)) payload ≡ none)

module _ {G : Type 0} (w : World G) (send : ℕ → Bytes → Option Bytes) (id : Bytes)
    (t : Table OutboxRow) where
  -- A report is still there, or the hub took it.
  abbrev Kept : Agent G → Agent G → Type 0
  Kept a b = (awaits id b.conn.db ≡ true) ⊎ Accepts send id t a.sent b.sent

  -- What is sent comes in front.
  sent_more :
      (its : List OutboxItem) (a : Agent G)
      → (xs : List Bytes) × ((send_items w send its a).sent ≡ xs ++ a.sent)
  unfolding send_items delivered_item
  sent_more [] a = ([], refl)
  sent_more (it ∷ its) a = elim (Option-cases (send (length a.sent) it.payload)) [
    | inr (e, k) ↦ rw (k, send_items) (it.payload ∷ [], refl)
    | inl k ↦
        let (xs, q) = sent_more its (delivered_item w it none a) in
        rw (k, send_items)
          (xs ++ (it.payload ∷ []), q ∙ sym (append_assoc xs (it.payload ∷ []) a.sent))
  ]

  -- An item was taken, and later another one.
  Kept-behind : (it : OutboxItem) (a b : Agent G) → Kept (delivered_item w it none a) b → Kept a b
  unfolding delivered_item
  Kept-behind it a b (inl k) = inl k
  Kept-behind it a b (inr (later, payload, before, q, row, k)) =
      let assoc = sym (append_assoc before (it.payload ∷ []) a.sent) in
      inr (
        later,
        payload,
        before ++ (it.payload ∷ []),
        q ∙ ap (λ l. later ++ (payload ∷ l)) assoc,
        row,
        subst (λ l. send (length l) payload ≡ none) assoc k,
      )

  taken-awaits :
      (it : OutboxItem) (a : Agent G)
      → str_eq it.report_id id ≡ false
      → awaits id a.conn.db ≡ true
      → awaits id (delivered_item w it none a).conn.db ≡ true
  unfolding delivered_item delete_outbox exec
  taken-awaits it a n h = ground (arith, h, find-remove it.report_id id a.conn.db.outbox)

  refused-awaits :
      (it : OutboxItem) (e : Bytes) (a : Agent G)
      → awaits id a.conn.db ≡ true
      → awaits id (delivered_item w it (some e) a).conn.db ≡ true
  unfolding delivered_item inc_outbox_attempts exec
  refused-awaits it e a h = ground (
    arith,
    h,
    find-update it.report_id id (λ (r : OutboxRow). record r { attempts = r.attempts + 1 })
        a.conn.db.outbox,
  )

  send_items-Kept :
      (its : List OutboxItem) (a : Agent G)
      → All (IsItem t) its
      → awaits id a.conn.db ≡ true
      → Kept a (send_items w send its a)
  unfolding send_items
  send_items-Kept [] a rows h = inl h
  send_items-Kept (it ∷ its) a rows h = elim (Option-cases (send (length a.sent) it.payload)) [
    | inr (e, k) ↦ rw (k, send_items) (inl (refused-awaits it e a h))
    | inl k ↦ elim (Bool-cases (str_eq it.report_id id)) [
      | inl e ↦
          let is_listed =
            subst (λ x. is_row x it.payload t ≡ true) ((str_eq_iff it.report_id id).0 e) rows.0 in
          let (xs, q) = sent_more its (delivered_item w it none a) in
          rw (k, send_items) (inr (xs, it.payload, [], q, is_listed, k))
      | inr e ↦
          rw (k, send_items)
            (Kept-behind it a (send_items w send its (delivered_item w it none a))
              (send_items-Kept its (delivered_item w it none a) rows.1 (taken-awaits it a e h)))
    ]
  ]

  show_outbox-awaits :
      (a : Agent G) → awaits id a.conn.db ≡ true → awaits id (show_outbox w a).conn.db ≡ true
  unfolding show_outbox outbox_depth exec
  show_outbox-awaits a h = ground (arith, h)

  send_listed-Kept :
      (r : Result (List OutboxItem)) (a : Agent G)
      → ((its : List OutboxItem) → r ≡ ok its → All (IsItem t) its)
      → awaits id a.conn.db ≡ true
      → Kept a (send_listed w send r a)
  unfolding send_listed show_outbox
  send_listed-Kept (err e) a rows h = inl h
  send_listed-Kept (ok its) a rows h = elim (send_items-Kept its a (rows its refl) h) [
    | inl k ↦ inl (show_outbox-awaits (send_items w send its a) k)
    | inr k ↦ inr k
  ]

module _ {G : Type 0} (w : World G) (id : Bytes) where
  listed :
      (c : Conn Db) (its : List OutboxItem)
      → (list_outbox 50 c).0 ≡ ok its
      → map to_item (take 50 (oldest_first c.db.outbox)) ≡ its
  unfolding list_outbox exec
  listed c its h = ground (arith, h)

  listed-IsItem :
      (c : Conn Db) (its : List OutboxItem)
      → (list_outbox 50 c).0 ≡ ok its
      → All (IsItem c.db.outbox) its
  listed-IsItem c its h =
      let t = c.db.outbox in
      subst (All (IsItem t)) (listed c its h)
        (items-IsItem t 50 (oldest_first t) (oldest_first-IsListed t t (IsListed-self t)))

  list-awaits : (c : Conn Db) → awaits id c.db ≡ true → awaits id (list_outbox 50 c).1.db ≡ true
  unfolding list_outbox exec
  list-awaits c h = ground (arith, h)

  pub tick-Kept :
      (send : ℕ → Bytes → Option Bytes) (a : Agent G)
      → awaits id a.conn.db ≡ true
      → Kept w send id a.conn.db.outbox a (tick w send a)
  unfolding tick
  tick-Kept send a h =
      let (r, c) = list_outbox 50 a.conn in
      send_listed-Kept w send id a.conn.db.outbox r (record a { conn = c }) (listed-IsItem a.conn)
        (list-awaits a.conn h)
