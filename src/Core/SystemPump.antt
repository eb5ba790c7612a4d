-- ===== src/Core/SystemPump.antt =====
-- The cooperative scheduler layer over the execution domains, core/src/ev_system_pump.c: the pump
-- in State, its passes over the domains in Passes.
mod State
mod Passes
pub mod Bounds
pub mod Turns
pub mod Stops
pub use State.{Stats, SystemPump, Report}
unfoldable pub use State.{init, bind, reset_stats, bound_count, pending}
pub use Passes.{passes, start_frame}
unfoldable pub use Passes.{run}
