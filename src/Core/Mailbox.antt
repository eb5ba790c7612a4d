-- ===== src/Core/Mailbox.antt =====
-- The QoS-aware mailboxes of core/include/ev/mailbox.h and core/src/ev_mailbox.c: the state in State,
-- `ev_mailbox_push` in Push, `ev_mailbox_push_qos` in Deliver, pop and reset in Drain.
mod State
mod Push
mod Deliver
mod Drain
pub mod Ring
pub mod Queue
pub mod Pushes
pub mod Refine
pub mod Pop
pub mod Refusals
pub mod Search
pub mod Quality
pub mod Lifecycle
pub mod Kept
pub use State.{
  Effect, Report, Stats, Mailbox, zero_stats, slot, kind_capacity, kind_is_lossy,
  kind_is_coalescing,
}
unfoldable pub use State.{init, retain_for_queue, index_advance}
unfoldable pub use Push.{push}
pub use Deliver.{report}
unfoldable pub use Deliver.{push_qos}
unfoldable pub use Drain.{pop, reset, capacity, is_empty, is_full}
