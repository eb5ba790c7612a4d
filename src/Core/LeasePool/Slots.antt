-- ===== src/Core/LeasePool/Slots.antt =====
-- The fixed-slot pool of core/include/ev/lease_pool.h and core/src/ev_lease_pool.c.
--
-- A slot is named by its index, which is what `slot - pool->slots` is, and a payload pointer by its
-- offset in the backing storage. A slot reached by a handle belongs to the pool it was initialised
-- with, so its `pool` field is not repeated; an index outside the array stands for a foreign slot.
-- The bytes that a holder of a lease writes are its own business: the pool only clears them.
use esp8266_event_driven_fra.Prelude.{
  ℕ, zero, suc, ◌+◌, ◌*◌, ◌%◌, Bool, true, false, not, ◌&&◌, ◌||◌, Option, none, some, List, [],
  ◌∷◌, ltb, ◌==◌, if◌then◌else◌, get_elem?, tabulate, replicate, inc32, is_none,
}
use esp8266_event_driven_fra.Core.Result.{Result, ok, err_out_of_range}

pub record Slot : Type 0 where
  pub slot_index : ℕ
  pub generation : ℕ
  pub refcount : ℕ
  pub payload_size : ℕ
  pub in_use : Bool

pub record Stats : Type 0 where
  pub acquires : ℕ
  pub failed_acquires : ℕ
  pub retains : ℕ
  pub releases : ℕ
  pub stale_handles : ℕ
  pub in_use : ℕ
  pub high_watermark : ℕ

pub record Pool : Type 0 where
  pub slots : List Slot
  pub bytes : List ℕ
  pub slot_count : ℕ
  pub slot_size : ℕ
  pub stats : Stats

pub record Handle : Type 0 where
  pub slot : Option ℕ
  pub generation : ℕ

-- `memset(bytes + off, 0, n)`
abbrev pub clear : List ℕ → ℕ → ℕ → List ℕ
clear [] off n = []
clear (b ∷ bs) zero zero = b ∷ bs
clear (b ∷ bs) zero (suc n) = 0 ∷ clear bs zero n
clear (b ∷ bs) (suc off) n = b ∷ clear bs off n

-- `ev_lease_slot_metadata_is_valid`, of the slot at an index of the array.
slot_ok : Pool → ℕ → Slot → Bool
slot_ok p i s =
    not (p.slot_count == 0)
    && not (p.slot_size == 0)
    && ltb s.slot_index p.slot_count
    && (s.slot_index == i)
    && not (s.in_use && ltb p.slot_size s.payload_size)

unfoldable pub metadata_is_valid : Pool → ℕ → Bool
unfolding slot_ok
metadata_is_valid p i = elim (get_elem? p.slots i) [ none ↦ false | some s ↦ slot_ok p i s ]

unfoldable pub data_ptr : Pool → ℕ → Option ℕ
unfolding metadata_is_valid
data_ptr p i = if metadata_is_valid p i then some (i * p.slot_size) else none

unfoldable pub clear_at : Pool → Option ℕ → List ℕ
clear_at p none = p.bytes
clear_at p (some off) = clear p.bytes off p.slot_size

-- The slot that a live handle refers to.
live_slot : Pool → ℕ → ℕ → Option Slot
unfolding metadata_is_valid
live_slot p generation i = elim (get_elem? p.slots i) [
  | none ↦ none
  | some s ↦
      if metadata_is_valid p i && s.in_use && (s.generation == generation) && ltb 0 s.refcount
      then some s
      else none
]

unfoldable pub handle_slot : Pool → Handle → Option (ℕ × Slot)
unfolding live_slot
handle_slot p h = elim h.slot [
  | none ↦ none
  | some i ↦ elim (live_slot p h.generation i) [ none ↦ none | some s ↦ some (i, s) ]
]

-- `ev_lease_handle_is_live`, which `ev_lease_handle_is_valid` exports.
unfoldable pub handle_is_live : Pool → Handle → Bool
unfolding handle_slot
handle_is_live p h = not (is_none (handle_slot p h))

-- A stale handle is counted where it still names a slot.
unfoldable pub count_stale : Pool → Option ℕ → Pool
count_stale p none = p
count_stale p (some i) = record p {
  stats = record (p.stats) { stale_handles = inc32 p.stats.stale_handles };
}

unfoldable pub init_slot : ℕ → Slot
init_slot i = record {
  slot_index = i;
  generation = 0;
  refcount = 0;
  payload_size = 0;
  in_use = false;
}

abbrev pub zero_stats : Stats
zero_stats = record {
  acquires = 0;
  failed_acquires = 0;
  retains = 0;
  releases = 0;
  stale_handles = 0;
  in_use = 0;
  high_watermark = 0;
}

-- `ev_lease_pool_init`; what is not initialised is absent.
unfoldable pub init : ℕ → ℕ → Result × Option Pool
unfolding init_slot
init slot_count slot_size =
    if (slot_count == 0) || (slot_size == 0) then (err_out_of_range, none) else (
      ok,
      some (record {
        slots = tabulate init_slot slot_count;
        bytes = replicate (slot_count * slot_size) 0;
        slot_count = slot_count;
        slot_size = slot_size;
        stats = zero_stats;
      }),
    )

-- The loop of `ev_lease_pool_acquire`: the first slot from index `i` on that is not in use.
unfoldable pub first_free : List Slot → ℕ → Option (ℕ × Slot)
first_free [] i = none
first_free (s ∷ ss) i = if s.in_use then first_free ss (suc i) else some (i, s)

next_generation : ℕ → ℕ
next_generation g = let g' = (g + 1) % 0x100000000 in if g' == 0 then 1 else g'

unfoldable pub take_slot : Slot → ℕ → Slot
unfolding next_generation
take_slot s payload_size = record s {
  in_use = true;
  refcount = 1;
  payload_size = payload_size;
  generation = next_generation s.generation;
}

unfoldable pub count_acquire : Stats → Stats
count_acquire st =
    let n = inc32 st.in_use in
    record st {
      acquires = inc32 st.acquires;
      in_use = n;
      high_watermark = if ltb st.high_watermark n then n else st.high_watermark;
    }
