-- ===== src/Core/Mailbox/Drain.antt =====
-- What takes messages out of a mailbox, and what reads its level, in core/src/ev_mailbox.c.
use esp8266_event_driven_fra.Prelude.{
  ℕ, zero, suc, ◌-◌, Bool, Option, none, some, leb, ◌==◌, if◌then◌else◌, set, inc32,
}
use esp8266_event_driven_fra.Core.Result.{Result, ok, err_empty}
use esp8266_event_driven_fra.Core.Catalog.{
  MailboxKind, fifo_8, fifo_16, mailbox_1, lossy_ring_8, coalesced_flag,
}
use esp8266_event_driven_fra.Core.Msg
use esp8266_event_driven_fra.Core.Msg.{Msg, is_storage_none}
use esp8266_event_driven_fra.Core.Mailbox.State.{
  Stats, Mailbox, kind_capacity, slot, index_advance, dispose_slot, zero_stats,
}

abbrev count_popped : Stats → Stats
count_popped st = record st { popped = inc32 st.popped }

module _ {S : Type 0} where
  unfoldable pub pop_ring : Mailbox S → Mailbox S
  pop_ring mb = record mb {
    storage = set mb.storage mb.head Msg.reset;
    head = index_advance mb mb.head;
    count = mb.count - 1;
    stats = count_popped mb.stats;
  }

  unfoldable pub pop_single : Mailbox S → Mailbox S
  pop_single mb = record mb {
    storage = set mb.storage 0 Msg.reset;
    count = 0;
    stats = count_popped mb.stats;
  }

  unfoldable pub pop_kind : MailboxKind → Mailbox S → Result × Option (Msg S) × Mailbox S
  unfolding pop_ring pop_single
  pop_kind fifo_8 mb = (ok, some (slot mb mb.head), pop_ring mb)
  pop_kind fifo_16 mb = (ok, some (slot mb mb.head), pop_ring mb)
  pop_kind lossy_ring_8 mb = (ok, some (slot mb mb.head), pop_ring mb)
  pop_kind mailbox_1 mb = (ok, some (slot mb 0), pop_single mb)
  pop_kind coalesced_flag mb = (ok, some (slot mb 0), pop_single mb)

  -- `ev_mailbox_pop`: what goes through `out` is there on success only.
  unfoldable pub pop : Mailbox S → Result × Option (Msg S) × Mailbox S
  unfolding pop_kind
  pop mb = if mb.count == 0 then (err_empty, none, mb) else pop_kind mb.kind mb

  -- The loop of `ev_mailbox_reset`, by the rounds left.
  unfoldable pub dispose_from : ℕ → ℕ → Mailbox S → S → Mailbox S × S
  dispose_from zero i mb s = (mb, s)
  dispose_from (suc n) i mb s =
      let (_, mb', s') = dispose_slot mb i s in dispose_from n (suc i) mb' s'

  -- `ev_mailbox_reset`
  unfoldable pub reset : Mailbox S → S → Mailbox S × S
  unfolding dispose_from
  reset mb s =
      let (mb', s') = dispose_from mb.storage_count 0 mb s in
      (record mb' { head = 0; tail = 0; count = 0; stats = zero_stats }, s')

  abbrev pub count : Mailbox S → ℕ
  count mb = mb.count

  unfoldable pub capacity : Mailbox S → ℕ
  capacity mb = kind_capacity mb.kind

  unfoldable pub is_empty : Mailbox S → Bool
  is_empty mb = mb.count == 0

  unfoldable pub is_full : Mailbox S → Bool
  unfolding capacity
  is_full mb = leb (capacity mb) mb.count
