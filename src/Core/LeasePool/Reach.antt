-- ===== src/Core/LeasePool/Reach.antt =====
-- The pools that the operations of core/src/ev_lease_pool.c can build.
use esp8266_event_driven_fra.Prelude.{ℕ, ◌+◌, ◌<◌, ◌≡◌, some, u32_mod}
use esp8266_event_driven_fra.Core.Result.{ok}
use esp8266_event_driven_fra.Core.LeasePool.Slots.{Slot, Pool, Handle, handle_slot, init}
use esp8266_event_driven_fra.Core.LeasePool.Shares.{acquire, retain, release}
use esp8266_event_driven_fra.Core.LeasePool.Invariant.{
  IsValid, init-IsValid, acquire-IsValid, retain-IsValid, release-IsValid,
}

-- What acquires, retains and releases of any size and any handle build from a fresh pool, in any
-- order, as long as no count of shares wraps.
pub data Reached : Pool → Type 0 where
  start :
      {p : Pool} (slot_count slot_size : ℕ)
      → slot_count < u32_mod
      → init slot_count slot_size ≡ (ok, some p)
      → Reached p
  acquired : {p : Pool} (size : ℕ) → Reached p → Reached (acquire p size).2
  retained :
      {p : Pool} (h : Handle)
      → Reached p
      → ((i : ℕ) (s : Slot) → handle_slot p h ≡ some (i, s) → s.refcount + 1 < u32_mod)
      → Reached (retain p h).1
  released : {p : Pool} (h : Handle) → Reached p → Reached (release p h).1

-- Whatever acquires, retains and releases do from a fresh pool, with any sizes and handles and as
-- long as no count of shares wraps, the pool stays well formed: each slot stands at its index and
-- has shares and a payload that fits exactly while it is in use, and the pool counts those in use.
pub Reached-IsValid : (p : Pool) → Reached p → IsValid p
Reached-IsValid p (start slot_count slot_size h made) = init-IsValid slot_count slot_size h made
Reached-IsValid _ (acquired {p} size r) = acquire-IsValid p (Reached-IsValid p r) size
Reached-IsValid _ (retained {p} h r fits) = retain-IsValid p (Reached-IsValid p r) h fits
Reached-IsValid _ (released {p} h r) = release-IsValid p (Reached-IsValid p r) h
