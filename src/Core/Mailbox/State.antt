-- ===== src/Core/Mailbox/State.antt =====
-- The queue of one actor: its state and the static helpers of core/src/ev_mailbox.c.
--
-- `size_t` is a 32-bit word on the target. `EV_MAILBOX_NO_SLOT` is `none`. The storage array is a
-- list of the mailbox's own: two mailboxes never share one.
use esp8266_event_driven_fra.Prelude.{
  ℕ, zero, suc, ◌-◌, Bool, true, false, not, ◌&&◌, ◌||◌, Option, none, some, List, ltb, leb, ◌==◌,
  if◌then◌else◌, get_or, set, replicate, inc32, add32, sub32, bit_and,
}
use esp8266_event_driven_fra.Core.Result.{Result, ok, is_ok, err_invalid_arg, err_out_of_range}
use esp8266_event_driven_fra.Core.Catalog.{
  MailboxKind, fifo_8, fifo_16, mailbox_1, lossy_ring_8, coalesced_flag,
}
use esp8266_event_driven_fra.Core.Msg
use esp8266_event_driven_fra.Core.Msg.{Msg, zero_msg, is_external}

pub data Effect : Type 0 where
  posted dropped replaced coalesced rejected : Effect

pub record Report : Type 0 where
  pub effect : Effect
  pub result : Result
  pub queue_depth_before : ℕ
  pub queue_depth_after : ℕ
  pub slot_index : Option ℕ

pub record Stats : Type 0 where
  pub posted : ℕ
  pub dropped : ℕ
  pub replaced : ℕ
  pub coalesced : ℕ
  pub popped : ℕ
  pub rejected : ℕ
  pub high_watermark : ℕ

pub record Mailbox (S : Type 0) : Type 0 where
  pub kind : MailboxKind
  pub storage : List (Msg S)
  pub storage_count : ℕ
  pub storage_mask : ℕ
  pub head : ℕ
  pub tail : ℕ
  pub count : ℕ
  pub stats : Stats

-- `ev_mailbox_kind_capacity`
abbrev pub kind_capacity : MailboxKind → ℕ
kind_capacity fifo_8 = 8
kind_capacity fifo_16 = 16
kind_capacity mailbox_1 = 1
kind_capacity lossy_ring_8 = 8
kind_capacity coalesced_flag = 1

pub kind_is_lossy : MailboxKind → Bool
kind_is_lossy lossy_ring_8 = true
kind_is_lossy _ = false

pub kind_is_coalescing : MailboxKind → Bool
kind_is_coalescing coalesced_flag = true
kind_is_coalescing _ = false

abbrev pub zero_stats : Stats
zero_stats = record {
  posted = 0;
  dropped = 0;
  replaced = 0;
  coalesced = 0;
  popped = 0;
  rejected = 0;
  high_watermark = 0;
}

unfoldable pub capacity_is_power_of_two : ℕ → Bool
capacity_is_power_of_two n = not (n == 0) && (bit_and n (sub32 n 1) == 0)

module _ {S : Type 0} where
  -- `ev_mailbox_init` over an array of `storage_count` slots; what is not initialised is absent.
  unfoldable pub init : MailboxKind → ℕ → Result × Option (Mailbox S)
  unfolding capacity_is_power_of_two
  init kind storage_count =
      if not (ltb 0 (kind_capacity kind))
      then (err_out_of_range, none)
      else if not (storage_count == kind_capacity kind)
      then (err_out_of_range, none)
      else if not (capacity_is_power_of_two storage_count)
      then (err_out_of_range, none)
      else (
        ok,
        some (record {
          kind = kind;
          storage = replicate storage_count zero_msg;
          storage_count = storage_count;
          storage_mask = storage_count - 1;
          head = 0;
          tail = 0;
          count = 0;
          stats = zero_stats;
        }),
      )

  abbrev pub slot : Mailbox S → ℕ → Msg S
  slot mb i = get_or mb.storage i zero_msg

  unfoldable pub record_high_watermark : Mailbox S → Mailbox S
  record_high_watermark mb =
      if ltb mb.stats.high_watermark mb.count
      then record mb { stats = record (mb.stats) { high_watermark = mb.count } }
      else mb

  unfoldable pub index_advance : Mailbox S → ℕ → ℕ
  index_advance mb i = bit_and (add32 i 1) mb.storage_mask

  -- `++mailbox->stats.rejected`
  abbrev pub count_rejected : Mailbox S → Mailbox S
  count_rejected mb = record mb { stats = record (mb.stats) { rejected = inc32 mb.stats.rejected } }

  unfoldable pub dispose_slot : Mailbox S → ℕ → S → Result × Mailbox S × S
  dispose_slot mb i s =
      if leb mb.storage_count i
      then (err_invalid_arg, mb, s)
      else let (rc, _, s') = Msg.dispose (slot mb i) s in
        (rc, record mb { storage = set mb.storage i Msg.reset }, s')

  unfoldable pub store_at : Mailbox S → ℕ → Msg S → Result × Mailbox S
  store_at mb i m =
      if leb mb.storage_count i
      then (err_invalid_arg, mb)
      else (ok, record mb { storage = set mb.storage i m })

  -- `ev_mailbox_release_retained_queue_copy`: the copy itself is thrown away.
  unfoldable pub release_retained_copy : Msg S → S → S
  release_retained_copy m s = (Msg.dispose m s).2

  unfoldable pub retain_for_queue : Msg S → S → Result × S
  retain_for_queue m s =
      if not (is_external m.storage) || (m.payload_size == 0) then (ok, s) else Msg.retain m s

  unfoldable pub pending_index_at : Mailbox S → ℕ → Option ℕ
  pending_index_at mb offset =
      if leb mb.count offset then none else some (bit_and (add32 mb.head offset) mb.storage_mask)

  -- The slot of the pending message at an offset, if that message is of the event.
  unfoldable pub event_at : Mailbox S → ℕ → ℕ → Option ℕ
  unfolding pending_index_at
  event_at mb event_id offset = elim (pending_index_at mb offset) [
    | none ↦ none
    | some i ↦ if (slot mb i).event_id == event_id then some i else none
  ]

  -- The loop of `ev_mailbox_find_event_slot`, by the rounds left, from an offset on.
  unfoldable pub find_from : Mailbox S → ℕ → Bool → ℕ → ℕ → Option ℕ → Option ℕ
  find_from mb event_id latest zero offset found = found
  find_from mb event_id latest (suc n) offset found = elim (event_at mb event_id offset) [
    | none ↦ find_from mb event_id latest n (suc offset) found
    | some i ↦ elim latest [
      | true ↦ find_from mb event_id latest n (suc offset) (some i)
      | false ↦ some i
    ]
  ]

  unfoldable pub find_event_slot : Mailbox S → ℕ → Bool → Option ℕ
  find_event_slot mb event_id latest = find_from mb event_id latest mb.count 0 none

  unfoldable pub replace_slot : Mailbox S → ℕ → Msg S → S → Result × Mailbox S × S
  unfolding retain_for_queue dispose_slot store_at release_retained_copy
  replace_slot mb i m s =
      let (rc, s₁) = retain_for_queue m s in
      let (rc', mb₁, s₂) = dispose_slot mb i s₁ in
      let (rc'', mb₂) = store_at mb₁ i m in
      if not (is_ok rc)
      then (rc, mb, s₁)
      else if not (is_ok rc')
      then (rc', mb₁, release_retained_copy m s₂)
      else if not (is_ok rc'')
      then (rc'', mb₂, release_retained_copy m s₂)
      else (ok, mb₂, s₂)
