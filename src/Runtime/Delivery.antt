-- ===== src/Runtime/Delivery.antt =====
-- The fan-out of a message over the routes of a runtime, runtime/src/ev_delivery_service.c: the part
-- of the runtime graph that it acts on in Records, the fan-out in Fanout.
mod Records
mod Fanout
pub mod Accounts
pub use Records.{Graph, Report, zero_report}
pub use Fanout.{is_enabled, is_optional_disabled}
unfoldable pub use Records.{count_metric}
unfoldable pub use Fanout.{deliver_one, publish_active, publish_static, publish}
