-- ===== src/Store/Outbox.antt =====
-- krennic/internal/store/store.go: the outbox of reports that await delivery to the hub.
use director_orson_callan_kr.Base.{
  ℕ, ◌+◌, Bytes, true, List, [], ◌∷◌, map, str_lt, take, if◌then◌else◌,
}
use director_orson_callan_kr.Model.{Time}
use director_orson_callan_kr.Sql.{Sql, exec}
use director_orson_callan_kr.Sql.Table.{Table, upsert, update, remove, count_where}
use director_orson_callan_kr.Store.Schema.{OutboxRow, Db, Library}

pub record OutboxItem : Type 0 where
  pub report_id : Bytes
  pub change_id : Bytes
  pub payload : Bytes
  pub attempts : ℕ

-- EnqueueOutbox: a report that is there keeps its place and its attempts.
unfoldable pub enqueue_outbox : Library → Time → Bytes → Bytes → Bytes → Sql Db Unit
enqueue_outbox lib now report_id change_id payload = exec (λ d. (
  tt,
  record d {
    outbox =
        upsert report_id
          (record {
            change_id = change_id;
            payload = payload;
            attempts = 0;
            created_at = lib.format_time now;
          })
          (λ row. record row { payload = payload }) d.outbox;
  },
))

-- ORDER BY created_at; equal keys stay in the order of the scan.
unfoldable pub insert_asc : Bytes × OutboxRow → List (Bytes × OutboxRow) → List (Bytes × OutboxRow)
insert_asc r [] = r ∷ []
insert_asc r (s ∷ rows) =
    if str_lt (s.1).created_at (r.1).created_at then s ∷ insert_asc r rows else r ∷ s ∷ rows

unfoldable pub oldest_first : Table OutboxRow → List (Bytes × OutboxRow)
unfolding insert_asc
oldest_first [] = []
oldest_first (r ∷ rows) = insert_asc r (oldest_first rows)

abbrev pub to_item : Bytes × OutboxRow → OutboxItem
to_item r = record {
  report_id = r.0;
  change_id = (r.1).change_id;
  payload = (r.1).payload;
  attempts = (r.1).attempts;
}

unfoldable pub list_outbox : ℕ → Sql Db (List OutboxItem)
unfolding oldest_first
list_outbox limit = exec (λ d. (map to_item (take limit (oldest_first d.outbox)), d))

unfoldable pub delete_outbox : Bytes → Sql Db Unit
delete_outbox report_id = exec (λ d. (tt, record d { outbox = remove report_id d.outbox }))

unfoldable pub inc_outbox_attempts : Bytes → Sql Db Unit
inc_outbox_attempts report_id = exec (λ d. (
  tt,
  record d {
    outbox = update report_id (λ row. record row { attempts = row.attempts + 1 }) d.outbox;
  },
))

unfoldable pub outbox_depth : Sql Db ℕ
outbox_depth = exec (λ d. (count_where (λ _. true) d.outbox, d))
