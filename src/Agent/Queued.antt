-- ===== src/Agent/Queued.antt =====
-- krennic/internal/agent/agent.go: a saved file becomes a row of the queue.
use director_orson_callan_kr.Base.{
  ℕ, Bytes, ◌≡◌, refl, true, false, ◌&&◌, List, [], any, ltb, length, some, ok, err, Result, arith,
  str_eq_refl,
}
use director_orson_callan_kr.Model.{ChangeEvent, Time}
use director_orson_callan_kr.Sql.{Conn, exec}
use director_orson_callan_kr.Sql.Table.{find-upsert}
use director_orson_callan_kr.Store.Schema.{Db, Library}
use director_orson_callan_kr.Store.Queue.{seen_recently, enqueue, pending_count}
use director_orson_callan_kr.Store.Enqueue.{enqueue_succeeds, enqueued}
use director_orson_callan_kr.Store.Lifecycle.Kept.{IsQueued}
use director_orson_callan_kr.Change.Defs.{build}
use director_orson_callan_kr.Watcher.Defs.{is_ignored, contains, repo_root_for}
use director_orson_callan_kr.Watcher.Events.{FileSystem, FileEvent, is_relevant}
use director_orson_callan_kr.Agent.Defs.{
  World, Agent, handle_change, handle_built, handle_event, enqueue_unless, queued,
  update_queue_depth, is_paused, dedup_window,
}
use director_orson_callan_kr.Agent.Wired.{Event, run}
use director_orson_callan_kr.Agent.Saved.{wired, save_ends, saved-handled}

seen_recently-conn :
    (lib : Library) (now : Time) (hash : Bytes) (window : ℕ) (c : Conn Db)
    → c.faults ≡ []
    → (seen_recently lib now hash window c).1 ≡ record { db = c.db; faults = [] }
unfolding seen_recently exec
seen_recently-conn lib now hash window c up = ground arith

pending_count-db : (c : Conn Db) → (pending_count c).1.db ≡ c.db
unfolding pending_count exec
pending_count-db c = ground arith

module _ {G : Type 0} (w : World G) (now : Time) where
  queued-db : (r : Result (Unit {0})) (a : Agent G) → (queued w now r a).conn.db ≡ a.conn.db
  unfolding queued update_queue_depth
  queued-db (err e) a = refl
  queued-db (ok u) a = ground (arith, pending_count-db a.conn)

  enqueued-IsQueued :
      (ch : ChangeEvent) (blob : Bytes) (d : Db)
      → IsQueued ch.change_id (enqueued ch blob (w.library.format_time now) d)
  enqueued-IsQueued ch blob d = rw find-upsert (ground (arith, str_eq_refl ch.change_id))

  handle_event-IsQueued :
      (ch : ChangeEvent) (a : Agent G) {blob : Bytes}
      → a.conn.faults ≡ []
      → w.library.marshal_event ch ≡ ok blob
      → (seen_recently w.library now ch.content_hash dedup_window a.conn).0 ≡ ok false
      → IsQueued ch.change_id (handle_event w now ch a).conn.db
  unfolding handle_event enqueue_unless
  handle_event-IsQueued ch a {blob} up encodes new =
      let c : Conn Db = record { db = a.conn.db; faults = [] } in
      let a' : Agent G = record a { conn = (enqueue w.library now ch c).1 } in
      rw
        (
          new,
          seen_recently-conn w.library now ch.content_hash dedup_window a.conn up,
          queued-db (enqueue w.library now ch c).0 a',
          enqueue_succeeds w.library now ch c refl encodes,
        )
        (enqueued-IsQueued ch blob a.conn.db)

  -- A daemon that is not paused queues what Build has made of the root, when the dedup table lets it
  -- pass and no statement fails.
  handle_change-IsQueued :
      (root : Bytes) (ch : ChangeEvent) (a : Agent G) {blob : Bytes}
      → is_paused w now a ≡ false
      → build (w.surroundings root) w.builder (w.repository root) ≡ ok (some ch)
      → a.conn.faults ≡ []
      → w.library.marshal_event ch ≡ ok blob
      → (seen_recently w.library now ch.content_hash dedup_window a.conn).0 ≡ ok false
      → IsQueued ch.change_id (handle_change w now root a).conn.db
  unfolding handle_change handle_built
  handle_change-IsQueued root ch a awake built up encodes new =
      rw (awake, built) (handle_event-IsQueued ch a up encodes new)

-- No save is lost: after any events of the wired daemon that leave the debouncer open, a save,
-- creation, deletion or renaming, at a path with no ignored component that a configured root
-- contains, the expiry of a timer and a goroutine of `fire`, for the longest such root, leave what
-- Build then makes of that root in the queue, neither done nor failed.
-- The daemon is not paused when the callback is called, its database has no statement that fails,
-- the change can be written as JSON, and the dedup table lets it pass.
pub saved-IsQueued :
    {G : Type 0} (w : World G) (wait max_wait : ℕ) (disk : FileSystem) (repos : List Bytes)
    (es : List Event) (a : Agent G) (now later : Time) (fs : FileSystem) (ev : FileEvent)
    (ch : ChangeEvent) {blob : Bytes}
    → (wired w wait max_wait disk repos es a).plane.debouncer.closed ≡ false
    → is_ignored ev.name ≡ false
    → is_relevant ev ≡ true
    → any (λ root. contains ev.name root && ltb 0 (length root)) repos ≡ true
    → is_paused w later (wired w wait max_wait disk repos es a).agent ≡ false
    → build
        (w.surroundings (repo_root_for repos ev.name))
        w.builder
        (w.repository (repo_root_for repos ev.name))
      ≡ ok (some ch)
    → (wired w wait max_wait disk repos es a).agent.conn.faults ≡ []
    → w.library.marshal_event ch ≡ ok blob
    → (seen_recently w.library later ch.content_hash dedup_window
        (wired w wait max_wait disk repos es a).agent.conn).0
      ≡ ok false
    → (id : ℕ) × (due : Time) × IsQueued ch.change_id
        (run w
          (save_ends w wait max_wait disk repos now later fs ev id due)
          (wired w wait max_wait disk repos es a)).agent.conn.db
saved-IsQueued w wait max_wait disk repos es a now later fs ev ch opened clear relevant inside awake
      built up encodes new =
    let s = wired w wait max_wait disk repos es a in
    let (id, due, e) =
      saved-handled w wait max_wait disk repos es a now later fs ev opened clear relevant inside in
    let key = repo_root_for repos ev.name in
    (id, due, rw e (handle_change-IsQueued w later key ch s.agent awake built up encodes new))
