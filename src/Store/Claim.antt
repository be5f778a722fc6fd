-- ===== src/Store/Claim.antt =====
-- What Store.Claim returns and leaves, whatever statements fail.
use director_orson_callan_kr.Base.{
  Ends, Ends-intro, Bytes, ◌≡◌, subst, true, Option, none, some, ok, arith, All,
}
use director_orson_callan_kr.Model.{analyzing, Time}
use director_orson_callan_kr.Sql.{Conn, exec, transaction}
use director_orson_callan_kr.Sql.Laws.{transaction-err}
use director_orson_callan_kr.Sql.Table.{update}
use director_orson_callan_kr.Store.Schema.{QueueRow, Db, Library, is_pending}
use director_orson_callan_kr.Store.Queue.{
  oldest_pending, mark_claimed, set_status, claim_blob, claim,
}
use director_orson_callan_kr.Store.Oldest.{NotBefore, NonePending, Picked, oldest_pending-Picked}

-- The database behind the claim of one row.
abbrev pub claimed : Bytes → Bytes → Db → Db
claimed id now d = record d {
  queue = update id (mark_claimed now) d.queue;
  records = update id (set_status analyzing now) d.records;
}

module _ (lib : Library) (now : Time) (c : Conn Db) where
  -- The outcome of the transaction of Claim: on an empty queue nothing has changed.
  abbrev pub Claimed : Option Bytes → Conn Db → Type 0
  Claimed none c' = NonePending c.db.queue × (c'.db ≡ c.db)
  Claimed (some blob) c' =
      (id : Bytes) × (row : QueueRow) × (oldest_pending c.db.queue ≡ some (id, row))
      × (is_pending row.state ≡ true)
      × All (NotBefore row) c.db.queue
      × (blob ≡ row.event)
      × (c'.db ≡ claimed id (lib.format_time now) c.db)

  claim_blob-none :
      (claim_blob lib now c).0 ≡ ok none
      → (oldest_pending c.db.queue ≡ none) × ((claim_blob lib now c).1.db ≡ c.db)
  unfolding claim_blob transaction exec
  claim_blob-none h = ground arith

  claim_blob-some :
      (blob : Bytes)
      → (claim_blob lib now c).0 ≡ ok (some blob)
      → (r : Bytes × QueueRow) × (oldest_pending c.db.queue ≡ some r)
        × (blob ≡ (r.1).event)
        × ((claim_blob lib now c).1.db ≡ claimed r.0 (lib.format_time now) c.db)
  unfolding claim_blob transaction exec
  claim_blob-some blob h = ground arith

  claim_blob-Claimed :
      (o : Option Bytes) → (claim_blob lib now c).0 ≡ ok o → Claimed o (claim_blob lib now c).1
  claim_blob-Claimed none h =
      let (p, q) = claim_blob-none h in
      (subst (Picked c.db.queue) p (oldest_pending-Picked c.db.queue), q)
  claim_blob-Claimed (some blob) h =
      let (r, p, q, d) = claim_blob-some blob h in
      let k = subst (Picked c.db.queue) p (oldest_pending-Picked c.db.queue) in
      (r.0, r.1, p, k.0, k.1, q, d)

  -- The transaction of Claim is atomic and picks the oldest: when it returns an error, no table
  -- has changed; when it finds nothing, no row is pending and no table has changed; else it returns
  -- the JSON of a pending row such that no pending row has an earlier `enqueued_at`, and the only
  -- change is that this row and its record are marked as analyzing, with one attempt more.
  pub claim_oldest : Ends (claim_blob lib now) c (λ e c'. c'.db ≡ c.db) Claimed
  unfolding claim_blob
  claim_oldest =
      Ends-intro (claim_blob lib now) c (λ e c'. c'.db ≡ c.db) Claimed
        (λ e h. transaction-err _ c e h) claim_blob-Claimed

  -- Decoding the claimed JSON leaves the database alone.
  pub claim-claim_blob : (claim lib now c).1.db ≡ (claim_blob lib now c).1.db
  unfolding claim
  claim-claim_blob = ground arith
