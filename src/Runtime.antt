-- ===== src/Runtime.antt =====
-- The services of the runtime (runtime/include/ev and runtime/src).
pub mod Power
pub mod Trace
pub mod Ingress
pub mod Faults
pub mod Timer
pub mod Outbox
pub mod ActiveRoutes
pub mod Quality
pub mod Metrics
pub mod Security
pub mod Delivery
pub mod PublishPort
