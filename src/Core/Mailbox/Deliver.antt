-- ===== src/Core/Mailbox/Deliver.antt =====
-- The QoS-aware delivery of core/src/ev_mailbox.c. The report, which the source fills where the
-- caller wants one, is always returned.
use esp8266_event_driven_fra.Prelude.{
  ℕ, true, false, not, Option, none, some, leb, if◌then◌else◌, inc32, add32, sub32, bit_and,
}
use esp8266_event_driven_fra.Core.Result.{Result, ok, is_ok}
use esp8266_event_driven_fra.Core.Route.{Qos, qos_coalesced, qos_latest_only}
use esp8266_event_driven_fra.Core.Msg
use esp8266_event_driven_fra.Core.Msg.{Msg, is_storage_none}
use esp8266_event_driven_fra.Core.Mailbox.State.{
  Effect, Report, Mailbox, count_rejected, find_event_slot, replace_slot,
}
use esp8266_event_driven_fra.Core.Mailbox.Push.{push}

abbrev pub report : Effect → Result → ℕ → ℕ → Option ℕ → Report
report e rc before after index = record {
  effect = e;
  result = rc;
  queue_depth_before = before;
  queue_depth_after = after;
  slot_index = index;
}

module _ {S : Type 0} where
  -- The tail of the three delivery functions: a plain push, and what is reported of it.
  unfoldable pub push_reported : Mailbox S → Msg S → S → Result × Mailbox S × S × Report
  push_reported mb m s =
      let (rc, mb', s') = push mb m s in
      (
        rc,
        mb',
        s',
        report (if is_ok rc then Effect.posted else Effect.rejected) rc mb.count mb'.count (
            if is_ok rc
            then some (bit_and (sub32 (add32 mb'.tail mb'.storage_count) 1) mb'.storage_mask)
            else none),
      )

  unfoldable pub drop_reported : Mailbox S → S → Result × Mailbox S × S × Report
  drop_reported mb s = (
    ok,
    record mb { stats = record (mb.stats) { dropped = inc32 mb.stats.dropped } },
    s,
    report Effect.dropped ok mb.count mb.count none,
  )

  unfoldable pub push_coalesced : Mailbox S → Msg S → S → Result × Mailbox S × S × Report
  unfolding push_reported drop_reported
  push_coalesced mb m s = elim (find_event_slot mb m.event_id false) [
    | some i ↦ (
      ok,
      record mb { stats = record (mb.stats) { coalesced = inc32 mb.stats.coalesced } },
      s,
      report Effect.coalesced ok mb.count mb.count (some i),
    )
    | none ↦ if leb mb.storage_count mb.count then drop_reported mb s else push_reported mb m s
  ]

  unfoldable pub replace_reported : Mailbox S → ℕ → Msg S → S → Result × Mailbox S × S × Report
  replace_reported mb i m s =
      let (rc, mb', s') = replace_slot mb i m s in
      if is_ok rc
      then (
        ok,
        record mb' { stats = record (mb'.stats) { replaced = inc32 mb'.stats.replaced } },
        s',
        report Effect.replaced ok mb.count mb'.count (some i),
      )
      else (rc, count_rejected mb', s', report Effect.rejected rc mb.count mb'.count (some i))

  unfoldable pub push_latest_only : Mailbox S → Msg S → S → Result × Mailbox S × S × Report
  unfolding push_reported drop_reported replace_reported
  push_latest_only mb m s = elim (find_event_slot mb m.event_id true) [
    | some i ↦ replace_reported mb i m s
    | none ↦ if leb mb.storage_count mb.count then drop_reported mb s else push_reported mb m s
  ]

  unfoldable pub push_by : Qos → Mailbox S → Msg S → S → Result × Mailbox S × S × Report
  unfolding push_coalesced push_latest_only push_reported
  push_by qos_coalesced mb m s = push_coalesced mb m s
  push_by qos_latest_only mb m s = push_latest_only mb m s
  push_by _ mb m s = push_reported mb m s

  -- `ev_mailbox_push_qos`
  unfoldable pub push_qos : Mailbox S → Msg S → Qos → S → Result × Mailbox S × S × Report
  unfolding push_by
  push_qos mb m qos s =
      let rc = Msg.validate m in
      if not (is_ok rc)
      then (rc, count_rejected mb, s, report Effect.rejected rc mb.count mb.count none)
      else push_by qos mb m s
