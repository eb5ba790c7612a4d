-- ===== src/Core/Mailbox/Push.antt =====
-- `ev_mailbox_push` of core/src/ev_mailbox.c, one function to a case of its switch.
use esp8266_event_driven_fra.Prelude.{◌-◌, not, ◌||◌, leb, ◌==◌, if◌then◌else◌, inc32}
use esp8266_event_driven_fra.Core.Result.{Result, ok, is_ok, err_full, err_contract}
use esp8266_event_driven_fra.Core.Catalog.{
  MailboxKind, fifo_8, fifo_16, mailbox_1, lossy_ring_8, coalesced_flag,
}
use esp8266_event_driven_fra.Core.Msg
use esp8266_event_driven_fra.Core.Msg.{Msg, is_storage_none}
use esp8266_event_driven_fra.Core.Mailbox.State.{
  Mailbox, slot, record_high_watermark, index_advance, count_rejected, dispose_slot, store_at,
  release_retained_copy, retain_for_queue,
}

module _ {S : Type 0} where
  -- What follows a successful store at the tail of a ring.
  unfoldable pub post_at_tail : Mailbox S → Mailbox S
  post_at_tail mb = record_high_watermark (record mb {
    tail = index_advance mb mb.tail;
    count = inc32 mb.count;
    stats = record (mb.stats) { posted = inc32 mb.stats.posted };
  })

  -- Storing a retained message at the tail of a ring.
  unfoldable pub enqueue : Mailbox S → Msg S → S → Result × Mailbox S × S
  unfolding post_at_tail
  enqueue mb m s =
      let (rc, mb₁) = store_at mb mb.tail m in
      if not (is_ok rc)
      then (rc, count_rejected mb₁, release_retained_copy m s)
      else (ok, post_at_tail mb₁, s)

  unfoldable pub push_fifo : Mailbox S → Msg S → S → Result × Mailbox S × S
  unfolding enqueue
  push_fifo mb m s =
      let (rc, s₁) = retain_for_queue m s in
      if leb mb.storage_count mb.count
      then (err_full, count_rejected mb, s)
      else if not (is_ok rc)
      then (rc, count_rejected mb, s₁)
      else enqueue mb m s₁

  -- The message that a single-slot mailbox gives up.
  unfoldable pub evict_single : Mailbox S → S → Mailbox S × S
  evict_single mb s =
      let (_, mb₁, s₁) = dispose_slot mb 0 s in if not (mb.count == 0) then (mb₁, s₁) else (mb, s)

  unfoldable pub post_single : Mailbox S → Mailbox S
  post_single mb = record_high_watermark (
      if mb.count == 0
      then record mb { count = 1; stats = record (mb.stats) { posted = inc32 mb.stats.posted } }
      else record mb { stats = record (mb.stats) { replaced = inc32 mb.stats.replaced } })

  unfoldable pub push_single : Mailbox S → Msg S → S → Result × Mailbox S × S
  unfolding evict_single post_single
  push_single mb m s =
      let (rc, s₁) = retain_for_queue m s in
      let (mb₁, s₂) = evict_single mb s₁ in
      let (rc', mb₂) = store_at mb₁ 0 m in
      if not (is_ok rc)
      then (rc, count_rejected mb, s₁)
      else if not (is_ok rc')
      then (rc', count_rejected mb₂, release_retained_copy m s₂)
      else (ok, post_single mb₂, s₂)

  -- A full lossy ring gives up its oldest message.
  unfoldable pub drop_oldest : Mailbox S → S → Mailbox S × S
  drop_oldest mb s =
      let (_, mb₁, s₁) = dispose_slot mb mb.head s in
      if leb mb.storage_count mb.count
      then (
        record mb₁ {
          head = index_advance mb mb.head;
          count = mb.count - 1;
          stats = record (mb.stats) { dropped = inc32 mb.stats.dropped };
        },
        s₁,
      )
      else (mb, s)

  unfoldable pub push_lossy : Mailbox S → Msg S → S → Result × Mailbox S × S
  unfolding drop_oldest enqueue
  push_lossy mb m s =
      let (rc, s₁) = retain_for_queue m s in
      let (mb₁, s₂) = drop_oldest mb s₁ in
      if not (is_ok rc) then (rc, count_rejected mb, s₁) else enqueue mb₁ m s₂

  unfoldable pub push_flag : Mailbox S → Msg S → S → Result × Mailbox S × S
  push_flag mb m s =
      let (rc, mb₁) = store_at mb 0 m in
      if not (is_storage_none m.storage) || not (m.payload_size == 0)
      then (err_contract, count_rejected mb, s)
      else if mb.count == 0
      then if not (is_ok rc) then (rc, count_rejected mb₁, s) else (
        ok,
        record_high_watermark (record mb₁ {
          count = 1;
          stats = record (mb.stats) { posted = inc32 mb.stats.posted };
        }),
        s,
      )
      else if not ((slot mb 0).event_id == m.event_id)
      then (err_contract, count_rejected mb, s)
      else (ok, record mb { stats = record (mb.stats) { coalesced = inc32 mb.stats.coalesced } }, s)

  unfoldable pub push_kind : MailboxKind → Mailbox S → Msg S → S → Result × Mailbox S × S
  unfolding push_fifo push_single push_lossy push_flag
  push_kind fifo_8 mb m s = push_fifo mb m s
  push_kind fifo_16 mb m s = push_fifo mb m s
  push_kind mailbox_1 mb m s = push_single mb m s
  push_kind lossy_ring_8 mb m s = push_lossy mb m s
  push_kind coalesced_flag mb m s = push_flag mb m s

  -- `ev_mailbox_push`
  unfoldable pub push : Mailbox S → Msg S → S → Result × Mailbox S × S
  unfolding push_kind
  push mb m s =
      if not (is_ok (Msg.validate m))
      then (Msg.validate m, count_rejected mb, s)
      else push_kind mb.kind mb m s
