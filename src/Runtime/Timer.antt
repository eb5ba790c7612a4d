-- ===== src/Runtime/Timer.antt =====
-- The timer service of runtime/src/ev_timer_service.c: its operations in Service, what a token names
-- in Tokens, the slots that one publish round visits in Round, and when timers fire in Due.
mod Service
pub mod Tokens
pub mod Round
pub mod Due
pub use Service.{Token, Slot, Timers, PublishFn, zero_slot, armed, capacity}
unfoldable pub use Service.{
  token_valid, first_idle, best_deadline, publish_slots, publish_slot, is_due, init, schedule,
  cancel, publish_due, next_deadline_ms, pending_count,
}
