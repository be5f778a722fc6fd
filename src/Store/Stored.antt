-- ===== src/Store/Stored.antt =====
-- krennic/internal/store/store.go: what a reader finds behind Enqueue.
use director_orson_callan_kr.Base.{
  Ends, Ends-intro, Ends-lift-bind, Bytes, ◌≡◌, refl, false, Option, none, some, Option-cases, inl,
  inr, ◌⊎◌, ok, err, arith, str_eq, str_eq_refl, subst, sym,
}
use director_orson_callan_kr.Model.{ChangeEvent, Time, pending}
use director_orson_callan_kr.Sql.{Conn, exec, transaction, next_fault}
use director_orson_callan_kr.Sql.Laws.{skip, IsFault, transaction-err}
use director_orson_callan_kr.Sql.Table.{find, find-upsert}
use director_orson_callan_kr.Store.Schema.{QueueRow, RecordRow, DedupRow, Db, Library}
use director_orson_callan_kr.Store.Queue.{enqueue, enqueue_blob}
use director_orson_callan_kr.Store.Enqueue.{enqueued, enqueue_blob-ok}

-- A queue row keeps the attempts and the time of an old one, and else starts at no attempt.
abbrev pub IsSince : Bytes → Option QueueRow → QueueRow → Type 0
IsSince stamp none q = (q.attempts ≡ 0) × (q.enqueued_at ≡ stamp)
IsSince stamp (some old) q = (q.attempts ≡ old.attempts) × (q.enqueued_at ≡ old.enqueued_at)

-- A record keeps the results of an old one, and else has none.
abbrev pub IsOf : Option RecordRow → RecordRow → Type 0
IsOf none rec = (rec.triage ≡ none) × (rec.review ≡ none) × (rec.error ≡ none)
IsOf (some old) rec =
    (rec.triage ≡ old.triage) × (rec.review ≡ old.review) × (rec.error ≡ old.error)

-- What the tables `d` became: the change is pending with this JSON in the queue and in the records,
-- its hash was seen at this time, and every other row is as it was.
pub record IsHeld (ev : ChangeEvent) (blob stamp : Bytes) (d d' : Db) : Type 0 where
  pub queued :
      (q : QueueRow) × (find ev.change_id d'.queue ≡ some q)
      × (q.state ≡ pending)
      × (q.event ≡ blob)
      × (q.updated_at ≡ stamp)
      × IsSince stamp (find ev.change_id d.queue) q
  pub recorded :
      (rec : RecordRow) × (find ev.change_id d'.records ≡ some rec)
      × (rec.status ≡ pending)
      × (rec.event ≡ blob)
      × IsOf (find ev.change_id d.records) rec
  pub seen :
      (row : DedupRow) × (find ev.content_hash d'.dedup ≡ some row)
      × (row.change_id ≡ ev.change_id)
      × (row.seen_at ≡ stamp)
  pub others :
      (k : Bytes)
      → str_eq ev.change_id k ≡ false
      → (find k d'.queue ≡ find k d.queue) × (find k d'.records ≡ find k d.records)
  pub other_hashes :
      (k : Bytes) → str_eq ev.content_hash k ≡ false → find k d'.dedup ≡ find k d.dedup
  pub costs : d'.costs ≡ d.costs
  pub outbox : d'.outbox ≡ d.outbox

module _ (ev : ChangeEvent) (blob stamp : Bytes) (d : Db) where
  enqueued-queue :
      (q : QueueRow) × (find ev.change_id (enqueued ev blob stamp d).queue ≡ some q)
      × (q.state ≡ pending)
      × (q.event ≡ blob)
      × (q.updated_at ≡ stamp)
      × IsSince stamp (find ev.change_id d.queue) q
  enqueued-queue = elim (Option-cases (find ev.change_id d.queue)) [
    | inl e ↦
        rw (find-upsert, e, str_eq_refl ev.change_id) (_, refl, refl, refl, refl, (refl, refl))
    | inr (old, e) ↦
        rw (find-upsert, e, str_eq_refl ev.change_id) (_, refl, refl, refl, refl, (refl, refl))
  ]

  enqueued-records :
      (rec : RecordRow) × (find ev.change_id (enqueued ev blob stamp d).records ≡ some rec)
      × (rec.status ≡ pending)
      × (rec.event ≡ blob)
      × IsOf (find ev.change_id d.records) rec
  enqueued-records = elim (Option-cases (find ev.change_id d.records)) [
    | inl e ↦
        rw (find-upsert, e, str_eq_refl ev.change_id) (_, refl, refl, refl, (refl, refl, refl))
    | inr (old, e) ↦
        rw (find-upsert, e, str_eq_refl ev.change_id) (_, refl, refl, refl, (refl, refl, refl))
  ]

  enqueued-dedup :
      (row : DedupRow) × (find ev.content_hash (enqueued ev blob stamp d).dedup ≡ some row)
      × (row.change_id ≡ ev.change_id)
      × (row.seen_at ≡ stamp)
  enqueued-dedup = elim (Option-cases (find ev.content_hash d.dedup)) [
    | inl e ↦ rw (find-upsert, e, str_eq_refl ev.content_hash) (_, refl, refl, refl)
    | inr (old, e) ↦ rw (find-upsert, e, str_eq_refl ev.content_hash) (_, refl, refl, refl)
  ]

  enqueued-IsHeld : IsHeld ev blob stamp d (enqueued ev blob stamp d)
  enqueued-IsHeld = record {
    queued = enqueued-queue;
    recorded = enqueued-records;
    seen = enqueued-dedup;
    others = λ k n. (rw (find-upsert, n) refl, rw (find-upsert, n) refl);
    other_hashes = λ k n. rw (find-upsert, n) refl;
    costs = refl;
    outbox = refl;
  }

module _ (lib : Library) (now : Time) (ev : ChangeEvent) (c : Conn Db) where
  enqueue_blob-err :
      (blob e : Bytes)
      → (enqueue_blob lib (lib.format_time now) ev blob c).0 ≡ err e
      → IsFault c.faults e
  unfolding enqueue_blob transaction exec
  enqueue_blob-err blob e h = elim (Option-cases (next_fault c.faults)) [
    | inr (f, k) ↦ (0, ground (arith, h, k))
    | inl k ↦ elim (Option-cases (next_fault (skip 1 c.faults))) [
      | inr (f, k1) ↦ (1, ground (arith, h, k, k1))
      | inl k1 ↦ elim (Option-cases (next_fault (skip 2 c.faults))) [
        | inr (f, k2) ↦ (2, ground (arith, h, k, k1, k2))
        | inl k2 ↦ elim (Option-cases (next_fault (skip 3 c.faults))) [
          | inr (f, k3) ↦ (3, ground (arith, h, k, k1, k2, k3))
          | inl k3 ↦ (4, ground (arith, h, k, k1, k2, k3))
        ]
      ]
    ]
  ]

  -- Why Enqueue failed: the event has no JSON, or the driver failed a statement.
  abbrev pub IsCause : Bytes → Type 0
  IsCause e = (lib.marshal_event ev ≡ err e) ⊎ IsFault c.faults e

  -- The tables hold the event with its JSON.
  abbrev pub Held : Unit {0} → Conn Db → Type 0
  Held _ c' =
      (blob : Bytes) × (lib.marshal_event ev ≡ ok blob)
      × IsHeld ev blob (lib.format_time now) c.db c'.db

  -- Enqueue is atomic and durable: an error is that of the event's JSON or of a statement that the
  -- driver fails, and no table has changed; after a success, a lookup of the change finds it pending,
  -- with the event's JSON, in the queue and in the records, with the attempts, the time of queueing
  -- and the results that an older row had, a lookup of its hash finds the change and the time, and
  -- every other lookup finds what it found before.
  pub enqueue-Held : Ends (enqueue lib now ev) c (λ e c'. (c'.db ≡ c.db) × IsCause e) Held
  unfolding enqueue enqueue_blob
  enqueue-Held =
      let stamp = lib.format_time now in
      Ends-lift-bind (lib.marshal_event ev) (enqueue_blob lib stamp ev) c
        (λ e c'. (c'.db ≡ c.db) × IsCause e) Held (λ e h. (refl, inl h))
        λ blob h.
          Ends-intro (enqueue_blob lib stamp ev blob) c (λ e c'. (c'.db ≡ c.db) × IsCause e) Held
            (λ e k. (transaction-err _ c e k, inr (enqueue_blob-err blob e k)))
            (λ a k. (
              blob,
              h,
              subst (IsHeld ev blob stamp c.db) (sym (enqueue_blob-ok lib now ev c blob k))
                  (enqueued-IsHeld ev blob stamp c.db),
            ))
