-- ===== src/Core/Catalog.antt =====
-- The event and actor catalogues: core/src/ev_event_catalog.c and core/src/ev_actor_catalog.c over
-- config/events.def and config/actors.def, and the enumerations of payload_kind.h, mailbox_kind.h
-- and execution_domain.h.
--
-- An identifier is its position in the catalogue. Neither enumeration has a negative constant, so
-- the compiler represents it by an unsigned 32-bit word: the test `id < 0` of the lookups never
-- holds, and `EV_ACTOR_NONE`, `(ev_actor_id_t)-1`, is the greatest word. Names and summaries, which
-- only diagnostics print, are left out.
use esp8266_event_driven_fra.Prelude.{
  ℕ, Bool, not, Option, none, some, List, [], ◌∷◌, get_elem?, length, is_none,
}

pub data PayloadKind : Type 0 where
  inline copy_fixed lease stream_view : PayloadKind

pub data MailboxKind : Type 0 where
  fifo_8 fifo_16 mailbox_1 lossy_ring_8 coalesced_flag : MailboxKind

pub data Domain : Type 0 where
  isr fast_loop slow_io network : Domain

pub record EventMeta : Type 0 where
  pub payload_kind : PayloadKind

pub record ActorMeta : Type 0 where
  pub execution_domain : Domain
  pub mailbox_kind : MailboxKind
  pub drain_budget : ℕ

abbrev event : PayloadKind → EventMeta
event k = record { payload_kind = k }

abbrev actor : Domain → MailboxKind → ℕ → ActorMeta
actor d k n = record { execution_domain = d; mailbox_kind = k; drain_budget = n }

unfoldable pub event_catalog : List EventMeta
event_catalog =
    event inline
    ∷ event inline
    ∷ event inline
    ∷ event lease
    ∷ event inline
    ∷ event lease
    ∷ event inline
    ∷ event lease
    ∷ event inline
    ∷ event inline
    ∷ event inline
    ∷ event inline
    ∷ event inline
    ∷ event inline
    ∷ event inline
    ∷ event inline
    ∷ event inline
    ∷ event inline
    ∷ event inline
    ∷ event inline
    ∷ event inline
    ∷ event inline
    ∷ event inline
    ∷ event inline
    ∷ event inline
    ∷ event inline
    ∷ event inline
    ∷ event inline
    ∷ event lease
    ∷ event inline
    ∷ event copy_fixed
    ∷ event copy_fixed
    ∷ event copy_fixed
    ∷ event copy_fixed
    ∷ event copy_fixed
    ∷ event copy_fixed
    ∷ event copy_fixed
    ∷ event copy_fixed
    ∷ event inline
    ∷ event inline
    ∷ event inline
    ∷ []

unfoldable pub actor_catalog : List ActorMeta
actor_catalog =
    actor fast_loop fifo_8 4
    ∷ actor fast_loop fifo_8 1
    ∷ actor fast_loop fifo_16 8
    ∷ actor slow_io fifo_8 2
    ∷ actor fast_loop fifo_8 4
    ∷ actor slow_io fifo_8 1
    ∷ actor slow_io fifo_8 1
    ∷ actor slow_io fifo_8 1
    ∷ actor slow_io fifo_8 1
    ∷ actor fast_loop fifo_8 4
    ∷ actor slow_io fifo_8 1
    ∷ actor fast_loop fifo_8 2
    ∷ actor fast_loop fifo_8 1
    ∷ actor fast_loop fifo_8 1
    ∷ actor slow_io fifo_8 2
    ∷ actor slow_io fifo_8 2
    ∷ actor fast_loop fifo_8 4
    ∷ actor fast_loop fifo_8 4
    ∷ []

-- The identifiers that the modelled code and its tests name.
abbrev pub ev_boot_started : ℕ
ev_boot_started = 0

abbrev pub ev_tick_1s : ℕ
ev_tick_1s = 2

abbrev pub ev_stream_chunk_ready : ℕ
ev_stream_chunk_ready = 3

abbrev pub ev_time_updated : ℕ
ev_time_updated = 8

abbrev pub ev_sys_goto_sleep_cmd : ℕ
ev_sys_goto_sleep_cmd = 22

abbrev pub ev_net_tx_cmd : ℕ
ev_net_tx_cmd = 29

abbrev pub act_boot : ℕ
act_boot = 0

abbrev pub act_runtime : ℕ
act_runtime = 1

abbrev pub act_stream : ℕ
act_stream = 2

abbrev pub act_app : ℕ
act_app = 4

abbrev pub act_power : ℕ
act_power = 12

abbrev pub act_watchdog : ℕ
act_watchdog = 13

abbrev pub act_network : ℕ
act_network = 14

abbrev pub actor_none : ℕ
actor_none = 0xffffffff

unfoldable pub event_count : ℕ
event_count = length event_catalog

unfoldable pub event_meta : ℕ → Option EventMeta
event_meta id = get_elem? event_catalog id

unfoldable pub event_id_is_valid : ℕ → Bool
event_id_is_valid id = not (is_none (event_meta id))

unfoldable pub actor_count : ℕ
actor_count = length actor_catalog

unfoldable pub actor_meta : ℕ → Option ActorMeta
actor_meta id = get_elem? actor_catalog id

unfoldable pub actor_id_is_valid : ℕ → Bool
actor_id_is_valid id = not (is_none (actor_meta id))

unfoldable pub default_drain_budget : ℕ → ℕ
default_drain_budget id = elim (actor_meta id) [ none ↦ 0 | some m ↦ m.drain_budget ]
