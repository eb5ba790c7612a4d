-- ===== src/Runtime/Ingress.antt =====
-- The ingress queue of runtime/src/ev_ingress_service.c: its operations in Service, the queue that
-- they implement in Fifo.
mod Service
pub mod Fifo
pub use Service.{Ingress, capacity}
unfoldable pub use Service.{init, push, pop, pending}
