-- ===== src/Store/RoundTrip.antt =====
-- Store.Claim behind Store.Enqueue.
use director_orson_callan_kr.Base.{
  Bytes, ◌≡◌, refl, true, Bool-cases, inl, inr, none, some, [], ◌∷◌, ok, arith, str_eq,
}
use director_orson_callan_kr.Model.{ChangeEvent, pending, Time}
use director_orson_callan_kr.Sql.{Conn, exec, transaction}
use director_orson_callan_kr.Sql.Table.{Table, upsert}
use director_orson_callan_kr.Store.Schema.{QueueRow, Db, Library, is_pending}
use director_orson_callan_kr.Store.Queue.{oldest_pending, enqueue, claim_blob, claim}
use director_orson_callan_kr.Store.Oldest.{NonePending}
use director_orson_callan_kr.Store.Enqueue.{enqueue_succeeds}

NonePending-oldest_pending : (t : Table QueueRow) → NonePending t → oldest_pending t ≡ none
unfolding oldest_pending
NonePending-oldest_pending [] h = refl
NonePending-oldest_pending (r ∷ t) h = ground (arith, NonePending-oldest_pending t h.1)

-- The row that Enqueue writes is the only pending one.
oldest_pending-upsert :
    (k : Bytes) (v : QueueRow) (merge : QueueRow → QueueRow) (blob : Bytes) (t : Table QueueRow)
    → (is_pending v.state ≡ true) × (v.event ≡ blob)
    → ((w : QueueRow) → (is_pending (merge w).state ≡ true) × ((merge w).event ≡ blob))
    → NonePending t
    → (r : Bytes × QueueRow) × (oldest_pending (upsert k v merge t) ≡ some r) × ((r.1).event ≡ blob)
unfolding oldest_pending upsert
oldest_pending-upsert k v merge blob [] hv hm h = ((k, v), ground arith, hv.1)
oldest_pending-upsert k v merge blob ((j, w) ∷ t) hv hm h =
    let (r, p, q) = oldest_pending-upsert k v merge blob t hv hm h.1 in
    elim (Bool-cases (str_eq j k)) [
      | inl e ↦
          rw e ((j, merge w), ground (arith, hm w, NonePending-oldest_pending t h.1), (hm w).1)
      | inr e ↦ rw e (r, ground arith, q)
    ]

module _ (lib : Library) (now later : Time) (ev : ChangeEvent) (c : Conn Db) {blob : Bytes}
    (up : c.faults ≡ []) (encodes : lib.marshal_event ev ≡ ok blob)
    (decodes : lib.unmarshal_event blob ≡ ok ev) (idle : NonePending c.db.queue) where
  claim_blob-enqueue : (claim_blob lib later (enqueue lib now ev c).1).0 ≡ ok (some blob)
  unfolding claim_blob transaction exec
  claim_blob-enqueue =
      let stamp = lib.format_time now in
      let (r, p, q) =
        oldest_pending-upsert ev.change_id
          (record {
            state = pending;
            event = blob;
            attempts = 0;
            enqueued_at = stamp;
            updated_at = stamp;
          })
          (λ (row : QueueRow). record row { state = pending; event = blob; updated_at = stamp })
          blob c.db.queue (refl, refl) (λ w. (refl, refl)) idle in
      rw (enqueue_succeeds lib now ev c up encodes) (ground arith)

  -- With no failing statement and JSON that decodes to what was encoded, an event that is enqueued
  -- while no row is pending is the event that the next Claim returns.
  pub claim-enqueue : (claim lib later (enqueue lib now ev c).1).0 ≡ ok (some ev)
  unfolding claim
  claim-enqueue = ground (arith, claim_blob-enqueue)
