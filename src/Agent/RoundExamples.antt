-- ===== src/Agent/RoundExamples.antt =====
-- The theorem on a worker's round at a small daemon.
use director_orson_callan_kr.Base.{◌≡◌, refl, true, some, [], ◌∷◌, utf8, str_eq}
use director_orson_callan_kr.Model.{analyzing}
use director_orson_callan_kr.Sql.{exec, transaction}
use director_orson_callan_kr.Sql.Table.{find, upsert, update}
use director_orson_callan_kr.Store.Schema.{QueueRow}
use director_orson_callan_kr.Store.Queue.{enqueue, claim, claim_blob, oldest_pending}
use director_orson_callan_kr.Agent.Defs.{Agent}
use director_orson_callan_kr.Agent.Work.{process_event}
use director_orson_callan_kr.Agent.Round.{is_some, analyzed, Ended, process_event-Ended}
use director_orson_callan_kr.Agent.Samples.{change, plain, small, idle}

-- A worker has claimed the only row.
abbrev claimed : Agent Unit
claimed = record idle { conn = (claim plain 4 (enqueue plain 3 (change (utf8 "b")) idle.conn).1).1 }

abbrev row : QueueRow
row = record {
  state = analyzing;
  event = utf8 "b";
  attempts = 1;
  enqueued_at = 3 ∷ [];
  updated_at = 4 ∷ [];
}

claimed_up : claimed.conn.faults ≡ []
unfolding claim claim_blob enqueue transaction exec upsert update oldest_pending str_eq
claimed_up = refl

claimed_row : find (utf8 "b") claimed.conn.db.queue ≡ some row
unfolding claim claim_blob enqueue transaction exec upsert update oldest_pending str_eq find
claimed_row = refl

claimed_known : is_some (find (utf8 "b") claimed.conn.db.records) ≡ true
unfolding claim claim_blob enqueue transaction exec upsert update oldest_pending str_eq find
claimed_known = refl

process_event-Ended_example :
    Ended small 9
      (change (utf8 "b"))
      (analyzed small 9 (change (utf8 "b")) claimed.conn)
      claimed.conn
      (process_event small 9 (change (utf8 "b")) claimed).conn
process_event-Ended_example =
    process_event-Ended small 9 (change (utf8 "b")) claimed row claimed_up claimed_row claimed_known
