-- ===== src/Core/Publish.antt =====
-- Publishing over the static routes and sending to one actor: core/src/ev_publish.c and
-- core/src/ev_send.c.
mod Run
pub mod Turns
pub use Run.{Policy, Report, DeliverFn}
unfoldable pub use Run.{publish_ex, publish, send}
