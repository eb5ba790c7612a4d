-- ===== src/Core/Actor.antt =====
-- The actor runtime of core/src/ev_actor_runtime.c: the state in State, delivery into the mailbox of
-- an actor in Deliver, taking messages out and handling them in Pump.
mod State
mod Deliver
mod Pump
pub mod Wired
pub mod Reach
pub mod Drained
pub mod Served
pub mod Delivery
pub mod Answers
pub use State.{
  RuntimeStats, ActorRuntime, RegistryStats, System, runtime_at, pending, fresh_registry_stats,
  fresh_runtime_stats,
}
unfoldable pub use State.{runtime_init, registry_init, registry_reset_stats, find, bind, restat}
pub use Deliver.{is_dropped}
unfoldable pub use Deliver.{delivery_qos, delivery}
pub use Pump.{Handler, PumpReport, pending_at}
unfoldable pub use Pump.{process_one, step, default_budget, pump, pump_default, reset_stats}
