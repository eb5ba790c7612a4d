-- ===== src/Runtime/Outbox.antt =====
-- The network outbox of runtime/src/ev_network_outbox.c: its operations in Items, what is stored for
-- a payload in Stored, the queue that an outbox holds in Held, and its limits in Limits.
mod Items
pub mod Stored
pub mod Held
pub mod Limits
pub use Items.{
  Category, telemetry_latest, telemetry_periodic, command_response, fault_critical, Policy, Item,
  Outbox, capacity, zero_item, update,
}
unfoldable pub use Items.{init, pending, push, pop, written}
