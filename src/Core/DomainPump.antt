-- ===== src/Core/DomainPump.antt =====
-- The cooperative drain of one execution domain, core/src/ev_domain_pump.c: the pump and what it
-- counts in State, its passes over the actors in Passes.
mod State
mod Passes
pub mod Bounds
pub mod Stops
pub mod Budget
pub mod Still
pub mod Idle
pub use State.{Stats, DomainPump, Report, domain_index}
unfoldable pub use State.{init, reset_stats, default_budget, pending, actor_matches, cursor_advance}
pub use Passes.{is_err_empty}
pub use Passes.{passes, start_frame}
unfoldable pub use Passes.{run}
