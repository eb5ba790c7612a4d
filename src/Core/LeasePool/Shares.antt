-- ===== src/Core/LeasePool/Shares.antt =====
-- The operations of core/src/ev_lease_pool.c on shares of a slot.
use esp8266_event_driven_fra.Prelude.{
  ℕ, Bool, true, false, not, ◌&&◌, Option, none, some, ltb, ◌==◌, if◌then◌else◌, get_elem?, set,
  inc32, sub32, is_none,
}
use esp8266_event_driven_fra.Core.Result.{Result, ok, is_ok, err_out_of_range, err_state, err_full}
use esp8266_event_driven_fra.Core.Msg.{Msg, External, RetainFn, ReleaseFn, set_external_payload}
use esp8266_event_driven_fra.Core.LeasePool.Slots.{
  Slot, Pool, Handle, metadata_is_valid, data_ptr, clear_at, handle_slot, handle_is_live,
  count_stale, first_free, take_slot, count_acquire,
}

-- The handle and the payload pointer that `ev_lease_pool_acquire` writes are there on success only.
unfoldable pub acquire : Pool → ℕ → Result × Option (Handle × Option ℕ) × Pool
unfolding take_slot count_acquire clear_at
acquire p payload_size =
    if ltb p.slot_size payload_size
    then (err_out_of_range, none, p)
    else elim (first_free p.slots 0) [
      | none ↦ (
        err_full,
        none,
        record p { stats = record (p.stats) { failed_acquires = inc32 p.stats.failed_acquires } },
      )
      | some (i, s) ↦ (
        ok,
        some (
          record { slot = some i; generation = (take_slot s payload_size).generation },
          data_ptr p i,
        ),
        record p {
          slots = set p.slots i (take_slot s payload_size);
          bytes = clear_at p (data_ptr p i);
          stats = count_acquire p.stats;
        },
      )
    ]

unfoldable pub handle_data : Pool → Handle → Option ℕ
handle_data p h = elim (handle_slot p h) [ none ↦ none | some (i, s) ↦ data_ptr p i ]

unfoldable pub handle_size : Pool → Handle → ℕ
handle_size p h = elim (handle_slot p h) [ none ↦ 0 | some (i, s) ↦ s.payload_size ]

unfoldable pub handle_refcount : Pool → Handle → ℕ
handle_refcount p h = elim (handle_slot p h) [ none ↦ 0 | some (i, s) ↦ s.refcount ]

retain_slot : Pool → ℕ → Slot → Pool
retain_slot p i s = record p {
  slots = set p.slots i (record s { refcount = inc32 s.refcount });
  stats = record (p.stats) { retains = inc32 p.stats.retains };
}

-- `ev_lease_pool_retain`
unfoldable pub retain : Pool → Handle → Result × Pool
unfolding count_stale retain_slot
retain p h = elim (handle_slot p h) [
  | none ↦ (err_state, count_stale p h.slot)
  | some (i, s) ↦ (ok, retain_slot p i s)
]

unfoldable pub free_slot : Pool → ℕ → Slot → Pool
unfolding clear_at
free_slot p i s = record p {
  slots = set p.slots i (record s { refcount = 0; payload_size = 0; in_use = false });
  bytes = clear_at p (data_ptr p i);
  stats = record (p.stats) { releases = inc32 p.stats.releases; in_use = sub32 p.stats.in_use 1 };
}

release_slot : Pool → ℕ → Slot → Pool
unfolding free_slot
release_slot p i s = if sub32 s.refcount 1 == 0 then free_slot p i s else record p {
  slots = set p.slots i (record s { refcount = sub32 s.refcount 1 });
  stats = record (p.stats) { releases = inc32 p.stats.releases };
}

-- `ev_lease_pool_release`
unfoldable pub release : Pool → Handle → Result × Pool
unfolding count_stale release_slot
release p h = elim (handle_slot p h) [
  | none ↦ (err_state, count_stale p h.slot)
  | some (i, s) ↦ (ok, release_slot p i s)
]

same_ptr : Option ℕ → Option ℕ → Bool
same_ptr none none = true
same_ptr (some a) (some b) = a == b
same_ptr _ _ = false

-- The handle that the two callbacks make of their context, if the payload is the slot's.
context_slot : Pool → Option ℕ → Option ℕ → ℕ → Option (ℕ × Slot)
unfolding same_ptr
context_slot p ctx payload size = elim ctx [
  | none ↦ none
  | some i ↦ elim (get_elem? p.slots i) [
    | none ↦ none
    | some s ↦
        if metadata_is_valid p i
          && s.in_use
          && same_ptr (data_ptr p i) payload
          && (s.payload_size == size)
        then some (i, s)
        else none
  ]
]

-- `ev_lease_pool_retain_from_slot`
unfoldable pub retain_from_slot : RetainFn Pool
unfolding context_slot count_stale
retain_from_slot ctx payload size p = elim (context_slot p ctx payload size) [
  | none ↦ (err_state, count_stale p ctx)
  | some (i, s) ↦ retain p (record { slot = some i; generation = s.generation })
]

-- `ev_lease_pool_release_from_slot`
unfoldable pub release_from_slot : ReleaseFn Pool
unfolding context_slot count_stale
release_from_slot ctx payload size p = elim (context_slot p ctx payload size) [
  | none ↦ count_stale p ctx
  | some (i, s) ↦ (release p (record { slot = some i; generation = s.generation })).1
]

unfoldable pub lease_payload : Option ℕ → ℕ → Option ℕ → External Pool
lease_payload bytes size ctx =
    if ltb 0 size
    then record {
      payload = bytes;
      size = size;
      retain_fn = some retain_from_slot;
      release_fn = some release_from_slot;
      lifecycle_ctx = ctx;
    }
    else record {
      payload = none;
      size = size;
      retain_fn = none;
      release_fn = none;
      lifecycle_ctx = ctx;
    }

-- The share that the message is to hold, taken only for a non-empty payload.
unfoldable pub attach_share : Pool → Handle → ℕ → Result × Pool
attach_share p h size = if ltb 0 size then retain p h else (ok, p)

undo_share : Pool → Handle → ℕ → Pool
undo_share p h size = if ltb 0 size then (release p h).1 else p

-- `ev_lease_pool_attach_msg`
unfoldable pub attach_msg : Msg Pool → Handle → Pool → Result × Msg Pool × Pool
unfolding lease_payload attach_share undo_share count_stale
attach_msg m h p =
    let size = handle_size p h in
    let (rc, p') = attach_share p h size in
    let (rc', m', p'') = set_external_payload m (lease_payload (handle_data p h) size h.slot) p' in
    if not (handle_is_live p h)
    then (err_state, m, count_stale p h.slot)
    else if is_none (handle_data p h) && ltb 0 size
    then (err_state, m, p)
    else if not (is_ok rc)
    then (rc, m, p')
    else if not (is_ok rc')
    then (rc', m', undo_share p'' h size)
    else (ok, m', p'')
