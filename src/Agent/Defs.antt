-- ===== src/Agent/Defs.antt =====
-- krennic/internal/agent/agent.go: the daemon's state and what its goroutines do with it: the
-- callback of the debouncer, a round of a worker, a tick of the outbox sender, and the pause. Each
-- reads the clock once, and the goroutines' calls of the store follow each other. Log lines are left
-- out.
use director_orson_callan_kr.Base.{
  ℕ, ◌+◌, Bytes, Bool, true, false, Option, none, some, List, Result, ok, err, ltb, if◌then◌else◌,
}
use director_orson_callan_kr.Model.{Time, Float64, ChangeEvent}
use director_orson_callan_kr.Sql.{Conn}
use director_orson_callan_kr.Store.Schema.{Db, Library}
use director_orson_callan_kr.Store.Queue.{seen_recently, enqueue, pending_count}
use director_orson_callan_kr.Store.Records.{save_triage, save_review, add_cost, spend_for_day}
use director_orson_callan_kr.Audit.{Report}
use director_orson_callan_kr.Ai.Types.{Sink, Gateway, Environment}
use director_orson_callan_kr.Change.Defs.{Builder, Surroundings, build}
use director_orson_callan_kr.Git.Tree.{Repository}
use director_orson_callan_kr.Git.Shadow.{Runner}
use director_orson_callan_kr.Agent.Console.{Console}
use director_orson_callan_kr.Telemetry.{
  Floats, Metrics, inc, set_gauge, observe, queue_depth, event_latency_ms, cache_hits,
  changes_processed,
}

-- 10 * time.Second, in nanoseconds.
abbrev pub dedup_window : ℕ
dedup_window = 10_000_000_000

-- What the daemon was made with, and what it finds outside: the repository under a root and the
-- surroundings of its Build, git, the providers, the hub, and the time that passed.
pub record World (G : Type 0) : Type 0 where
  pub library : Library
  pub floats : Floats
  pub of_nat : ℕ → Float64
  pub builder : Builder
  pub repository : Bytes → Repository
  pub surroundings : Bytes → Surroundings
  pub gateway : Gateway (Conn Db)
  pub environment : Environment
  pub remote_for : Bytes → Bytes
  pub runner : Bytes → Runner G
  -- The hub's client, if there is one: its answer to a payload, after a number of others.
  pub hub : Option (ℕ → Bytes → Option Bytes)
  pub payload : Report → Bytes
  pub elapsed_ms : Time → Float64
  pub console : Console

-- `wake` is the number of signals in the channel, which holds 64. `sent` are the payloads that were
-- sent to the hub, the newest first. The zero time is 0.
pub record Agent (G : Type 0) : Type 0 where
  pub conn : Conn Db
  pub metrics : Metrics
  pub git : G
  pub wake : ℕ
  pub paused_until : Time
  pub sent : List Bytes

unfoldable pub float_or_zero : Result Float64 → Float64
float_or_zero (ok v) = v
float_or_zero (err e) = 0

-- The store as the gateway's sink.
abbrev pub store_sink : Library → Time → Sink (Conn Db)
store_sink lib now = record {
  save_triage = λ id tr c. (save_triage lib now id tr c).1;
  save_review = λ id rv c. (save_review lib now id rv c).1;
  add_cost = λ day usd c. (add_cost lib day usd c).1;
  spend_for_day = λ day c. (float_or_zero (spend_for_day day c).0, (spend_for_day day c).1);
}

module _ {G : Type 0} (w : World G) where
  abbrev pub count_metric : Bytes → Agent G → Agent G
  count_metric name a = record a { metrics = inc w.floats name a.metrics }

  unfoldable pub depth_shown : Result ℕ → Metrics → Metrics
  depth_shown (ok n) m = set_gauge w.floats queue_depth (w.of_nat n) m
  depth_shown (err e) m = m

  unfoldable pub update_queue_depth : Agent G → Agent G
  unfolding depth_shown
  update_queue_depth a =
      let (r, c) = pending_count a.conn in record a { conn = c; metrics = depth_shown r a.metrics }

  abbrev pub is_paused : Time → Agent G → Bool
  is_paused now a = ltb now a.paused_until

  abbrev pub pause : Time → ℕ → Agent G → Agent G
  pause now d a = record a { paused_until = now + d }

  abbrev pub resume : Agent G → Agent G
  resume a = record a { paused_until = 0 }

  -- `select { case a.wake <- struct{}{}: default: }`
  abbrev pub signal : Agent G → Agent G
  signal a = if ltb a.wake 64 then record a { wake = a.wake + 1 } else a

  unfoldable pub queued : Time → Result (Unit {0}) → Agent G → Agent G
  unfolding update_queue_depth
  queued now (err e) a = a
  queued now (ok _) a = signal (
      update_queue_depth (record a {
        metrics =
            observe w.floats event_latency_ms (w.elapsed_ms now)
              (inc w.floats changes_processed a.metrics);
      }))

  -- An event that is new: a reading of the dedup table that fails counts as not seen.
  unfoldable pub enqueue_unless : Time → ChangeEvent → Result Bool → Agent G → Agent G
  unfolding queued
  enqueue_unless now ev (ok true) a = count_metric cache_hits a
  enqueue_unless now ev (ok false) a =
      let (r, c) = enqueue w.library now ev a.conn in queued now r (record a { conn = c })
  enqueue_unless now ev (err e) a =
      let (r, c) = enqueue w.library now ev a.conn in queued now r (record a { conn = c })

  -- An event that Build has made.
  unfoldable pub handle_event : Time → ChangeEvent → Agent G → Agent G
  unfolding enqueue_unless
  handle_event now ev a =
      let (seen, c) = seen_recently w.library now ev.content_hash dedup_window a.conn in
      enqueue_unless now ev seen (record a { conn = c })

  unfoldable pub handle_built : Time → Result (Option ChangeEvent) → Agent G → Agent G
  unfolding handle_event
  handle_built now (err e) a = a
  handle_built now (ok none) a = a
  handle_built now (ok (some ev)) a = handle_event now ev a

  unfoldable pub handle_change : Time → Bytes → Agent G → Agent G
  unfolding handle_built
  handle_change now root a =
      if is_paused now a
      then a
      else handle_built now (build (w.surroundings root) w.builder (w.repository root)) a
