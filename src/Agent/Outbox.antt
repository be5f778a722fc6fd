-- ===== src/Agent/Outbox.antt =====
-- krennic/internal/agent/agent.go: the outbox sender. The context is not cancelled during a tick.
use director_orson_callan_kr.Base.{
  ℕ, Bytes, Option, none, some, List, [], ◌∷◌, Result, ok, err, utf8,
}
use director_orson_callan_kr.Store.Outbox.{
  OutboxItem, list_outbox, delete_outbox, inc_outbox_attempts, outbox_depth,
}
use director_orson_callan_kr.Telemetry.{Metrics, set_gauge}
use director_orson_callan_kr.Base.{length}
use director_orson_callan_kr.Agent.Defs.{World, Agent}

module _ {G : Type 0} (w : World G) where
  -- One item of a batch, with what the hub answered.
  unfoldable pub delivered_item : OutboxItem → Option Bytes → Agent G → Agent G
  delivered_item it (some e) a = record a {
    conn = (inc_outbox_attempts it.report_id a.conn).1;
    sent = it.payload ∷ a.sent;
  }
  delivered_item it none a = record a {
    conn = (delete_outbox it.report_id a.conn).1;
    sent = it.payload ∷ a.sent;
  }

  -- The batch, up to the first item that the hub does not take.
  unfoldable pub send_items : (ℕ → Bytes → Option Bytes) → List OutboxItem → Agent G → Agent G
  unfolding delivered_item
  send_items send [] a = a
  send_items send (it ∷ its) a = elim (send (length a.sent) it.payload) [
    | some e ↦ delivered_item it (some e) a
    | none ↦ send_items send its (delivered_item it none a)
  ]

  unfoldable pub outbox_shown : Result ℕ → Metrics → Metrics
  outbox_shown (ok n) m = set_gauge w.floats (utf8 "krennic_hub_outbox_depth") (w.of_nat n) m
  outbox_shown (err e) m = m

  unfoldable pub show_outbox : Agent G → Agent G
  unfolding outbox_shown
  show_outbox a =
      let (r, c) = outbox_depth a.conn in record a { conn = c; metrics = outbox_shown r a.metrics }

  unfoldable pub send_listed :
      (ℕ → Bytes → Option Bytes) → Result (List OutboxItem) → Agent G → Agent G
  unfolding send_items show_outbox
  send_listed send (err e) a = a
  send_listed send (ok items) a = show_outbox (send_items send items a)

  -- A tick of the outbox sender, which runs if there is a client.
  unfoldable pub tick : (ℕ → Bytes → Option Bytes) → Agent G → Agent G
  unfolding send_listed
  tick send a =
      let (items, c) = list_outbox 50 a.conn in send_listed send items (record a { conn = c })

  unfoldable pub send_outbox : Agent G → Agent G
  unfolding tick
  send_outbox a = elim w.hub [ none ↦ a | some send ↦ tick send a ]
