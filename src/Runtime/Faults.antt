-- ===== src/Runtime/Faults.antt =====
-- The fault registry of runtime/src/ev_fault_bus.c: its operations in Store, the table of
-- distinct faults that they keep in Table.
mod Store
pub mod Table
pub use Store.{Fault, Registry, Severity, sev_info, sev_warning, sev_error, sev_critical}
unfoldable pub use Store.{same_key, capacity, init, emit, drain, ack_all}
