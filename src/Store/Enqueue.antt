-- ===== src/Store/Enqueue.antt =====
-- What Store.Enqueue leaves in the tables, whatever statements fail.
use director_orson_callan_kr.Base.{
  Ends, Ends-intro, Ends-lift-bind, ℕ, ◌+◌, Bytes, ◌≡◌, refl, some, [], ok, arith, ltb, str_eq,
  if◌then◌else◌,
}
use director_orson_callan_kr.Model.{ChangeEvent, Time}
use director_orson_callan_kr.Sql.{Conn, exec, transaction}
use director_orson_callan_kr.Sql.Laws.{transaction-err}
use director_orson_callan_kr.Sql.Table.{find-upsert}
use director_orson_callan_kr.Store.Schema.{DedupRow, Db, Library}
use director_orson_callan_kr.Store.Queue.{
  put_queue, put_record, put_dedup, enqueue_blob, enqueue, seen_recently,
}

-- The database behind a successful Enqueue.
abbrev pub enqueued : ChangeEvent → Bytes → Bytes → Db → Db
enqueued ev blob now d = put_dedup ev now (put_record ev blob now (put_queue ev blob now d))

module _ (lib : Library) (now : Time) (ev : ChangeEvent) (c : Conn Db) where
  pub enqueue_blob-ok :
      (blob : Bytes)
      → (enqueue_blob lib (lib.format_time now) ev blob c).0 ≡ ok tt
      → (enqueue_blob lib (lib.format_time now) ev blob c).1.db
        ≡ enqueued ev blob (lib.format_time now) c.db
  unfolding enqueue_blob transaction exec
  enqueue_blob-ok blob h = ground arith

  -- What a successful Enqueue leaves.
  abbrev pub Stored : Unit {0} → Conn Db → Type 0
  Stored _ c' =
      (blob : Bytes) × (lib.marshal_event ev ≡ ok blob)
      × (c'.db ≡ enqueued ev blob (lib.format_time now) c.db)

  -- Enqueue is atomic: when it returns an error, no table has changed; when it succeeds, the event
  -- was marshalled, and the queue, the records and the dedup table hold it with that JSON.
  pub enqueue_atomic : Ends (enqueue lib now ev) c (λ e c'. c'.db ≡ c.db) Stored
  unfolding enqueue enqueue_blob
  enqueue_atomic =
      Ends-lift-bind (lib.marshal_event ev) (enqueue_blob lib (lib.format_time now) ev) c
        (λ e c'. c'.db ≡ c.db) Stored (λ e h. refl)
        λ blob h.
          Ends-intro (enqueue_blob lib (lib.format_time now) ev blob) c (λ e c'. c'.db ≡ c.db)
            Stored (λ e k. transaction-err _ c e k) λ a k. (blob, h, enqueue_blob-ok blob k)

-- With no failing statement Enqueue succeeds.
pub enqueue_succeeds :
    (lib : Library) (now : Time) (ev : ChangeEvent) (c : Conn Db) {blob : Bytes}
    → c.faults ≡ []
    → lib.marshal_event ev ≡ ok blob
    → enqueue lib now ev c
      ≡ (ok tt, record { db = enqueued ev blob (lib.format_time now) c.db; faults = [] })
unfolding enqueue enqueue_blob transaction exec
enqueue_succeeds lib now ev c up encodes = ground arith

module _ (lib : Library) (now later : Time) (ev : ChangeEvent) (window : ℕ) (c : Conn Db)
    {blob : Bytes} (up : c.faults ≡ []) (encodes : lib.marshal_event ev ≡ ok blob)
    (parses : lib.parse_time (lib.format_time now) ≡ some now) where
  -- With no failing statement, SeenRecently for the hash of an event that was enqueued at `now`
  -- says true exactly while the clock is below `now + window`, and for any other hash it says what
  -- it said before the Enqueue.
  pub seen_recently-enqueue :
      (hash : Bytes)
      → (seen_recently lib later hash window (enqueue lib now ev c).1).0 ≡ (
          if str_eq ev.content_hash hash
          then ok (ltb later (now + window))
          else (seen_recently lib later hash window c).0)
  unfolding seen_recently exec
  seen_recently-enqueue hash = rw (enqueue_succeeds lib now ev c up encodes) (
      ground (
        arith,
        find-upsert ev.content_hash hash
            (record { change_id = ev.change_id; seen_at = lib.format_time now })
            (λ (_ : DedupRow). record { change_id = ev.change_id; seen_at = lib.format_time now })
            c.db.dedup,
      ))
