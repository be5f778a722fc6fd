-- ===== src/Agent/Daemon.antt =====
-- krennic/internal/agent/agent.go: the goroutines of Run and the control API as events of one daemon,
-- in the order in which they reach it. A goroutine's round is one event.
use director_orson_callan_kr.Base.{ℕ, ◌-◌, Bytes, Bool, true, false, List, [], ◌∷◌}
use director_orson_callan_kr.Model.{Time}
use director_orson_callan_kr.Store.Queue.{reset_inflight}
use director_orson_callan_kr.Store.Lifecycle.Defs.{Op, enqueue_op, reset_op, read_op}
use director_orson_callan_kr.Agent.Performs.{is_work}
use director_orson_callan_kr.Agent.Defs.{World, Agent, handle_change}
use director_orson_callan_kr.Agent.Work.{drain}
use director_orson_callan_kr.Hub.Client.{Request}
use director_orson_callan_kr.Telemetry.{new_metrics}
use director_orson_callan_kr.Agent.Http.{handler}
use director_orson_callan_kr.Agent.Outbox.{send_outbox}
use director_orson_callan_kr.Agent.Steps.{is_delivery}

pub data Event : Type 0 where
  -- New and Run: a process starts, with what is on disk.
  started : Event
  -- The debouncer's callback for a root.
  changed : Time → Bytes → Event
  -- A signal or a timeout of a worker, which drains the queue.
  woke : ℕ → (ℕ → Time) → Event
  -- A tick of the outbox sender.
  ticked : Event
  -- A request to the control server.
  requested : Time → Request → Event

-- What each event may do to the store.
unfoldable pub allows : Event → Op → Bool
unfolding is_work is_delivery
allows started reset_op = true
allows (changed now root) (enqueue_op t ev) = true
allows (changed now root) read_op = true
allows (requested now r) read_op = true
allows (woke fuel clock) op = is_work op
allows ticked op = is_delivery op
allows _ _ = false

module _ {G : Type 0} (w : World G) where
  -- A receive from the channel takes a signal, if there is one.
  unfoldable pub step : Event → Agent G → Agent G
  unfolding handle_change drain send_outbox handler
  step started a = record a {
    conn = (reset_inflight a.conn).1;
    metrics = new_metrics;
    wake = 0;
    paused_until = 0;
  }
  step (changed now root) a = handle_change w now root a
  step (woke fuel clock) a = (drain w fuel clock (record a { wake = a.wake - 1 })).0
  step ticked a = send_outbox w a
  step (requested now r) a = (handler w now r a).1

  unfoldable pub run : List Event → Agent G → Agent G
  unfolding step
  run [] a = a
  run (e ∷ es) a = run es (step e a)
