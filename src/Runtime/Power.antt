-- ===== src/Runtime/Power.antt =====
-- The power state machine of runtime/src/ev_power_state_machine.c: the machine in Steps, what its
-- runs can reach in Reach.
mod Steps
pub mod Reach
pub use Steps.{
  State, active, sleep_requested, draining_runtime, log_flushing, ports_prepare_sleep,
  rtc_state_saved, entering_deep_sleep, wake_boot, rejected, failed, Action, request_sleep,
  drain_complete, drain_rejected, log_flush_complete, log_flush_failed, ports_prepared,
  ports_prepare_failed, save_rtc_state, rtc_state_save_failed, deep_sleep_entered,
  deep_sleep_failed, boot_after_wake, Input, Report, Machine,
}
unfoldable pub use Steps.{transition, init, step}
