-- ===== src/Core/LeasePool.antt =====
-- The lease pool of core/src/ev_lease_pool.c: its state in Slots, its operations in Shares.
mod Slots
mod Shares
pub mod Invariant
pub mod Leases
pub mod Reach
pub mod Carried
pub use Slots.{Slot, Stats, Pool, Handle}
unfoldable pub use Slots.{data_ptr, init, init_slot, first_free, handle_slot, handle_is_live}
unfoldable pub use Shares.{
  acquire, handle_data, handle_size, handle_refcount, retain, release, retain_from_slot,
  release_from_slot, attach_msg,
}
