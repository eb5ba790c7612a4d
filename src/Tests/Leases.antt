-- ===== src/Tests/Leases.antt =====
-- The theorems on the lease pool at a pool of three slots: one shared, one held once, one free.
use esp8266_event_driven_fra.Prelude.{
  ℕ, inr, [], ◌∷◌, replicate, ◌≡◌, refl, false, some, arith, get_elem?,
}
use esp8266_event_driven_fra.Core.Result.{ok}
use esp8266_event_driven_fra.Core.LeasePool
use esp8266_event_driven_fra.Core.LeasePool.{Slot, Pool, Handle}
use esp8266_event_driven_fra.Core.LeasePool.Invariant.{IsValid}
use esp8266_event_driven_fra.Core.LeasePool.Reach.{Reached-IsValid, start, acquired, released}
use esp8266_event_driven_fra.Core.LeasePool.Leases.{
  acquire_result, acquire_lem, release_last, stale_after_reuse,
}
use esp8266_event_driven_fra.Core.Catalog.{
  event_meta, event_id_is_valid, actor_id_is_valid, event_catalog, actor_meta, actor_catalog,
  ev_stream_chunk_ready, act_boot, act_app,
}
use esp8266_event_driven_fra.Core.Msg
use esp8266_event_driven_fra.Core.Msg.{Msg, zero_msg, msg_cookie}
use esp8266_event_driven_fra.Core.Msg.Contract.{IsAddressed}
use esp8266_event_driven_fra.Core.LeasePool.Carried.{attach_msg_lem}
use esp8266_event_driven_fra.Tests.Samples.{
  busy_slot, last_slot, three_slots, shared_handle, last_handle,
}

three_slots-IsValid : IsValid three_slots
three_slots-IsValid = record {
  some_slots = omega arith;
  some_bytes = omega arith;
  small = omega arith;
  array = refl;
  slots_ok = (
    record {
      index = refl;
      busy = λ _. (omega arith, omega arith);
      idle = λ e. absurd (cc e);
      word = omega arith;
    },
    (
      record {
        index = refl;
        busy = λ _. (omega arith, omega arith);
        idle = λ e. absurd (cc e);
        word = omega arith;
      },
      (
        record {
          index = refl;
          busy = λ e. absurd (cc e);
          idle = λ _. (refl, refl);
          word = omega arith;
        },
        tt,
      ),
    ),
  );
  counted = refl;
}

stale_after_reuse_example :
    LeasePool.handle_is_live
      (LeasePool.acquire (LeasePool.release three_slots last_handle).1 8).2
      last_handle
    ≡ false
unfolding LeasePool.handle_slot
stale_after_reuse_example =
    (stale_after_reuse three_slots last_handle 1 last_slot 8 three_slots-IsValid refl refl).0

acquire_result_example : (LeasePool.acquire three_slots 8).0 ≡ ok
acquire_result_example =
    (acquire_result three_slots three_slots-IsValid 8).1 (omega arith) (omega arith)

release_last_example :
    get_elem? (LeasePool.release three_slots last_handle).1.slots 1
    ≡ some
        (record { slot_index = 1; generation = 7; refcount = 0; payload_size = 0; in_use = false })
unfolding LeasePool.handle_slot
release_last_example =
    (release_last three_slots three_slots-IsValid last_handle 1 last_slot refl refl).1

abbrev fresh_handle : Handle
fresh_handle = record { slot = some 2; generation = 4 }

acquire_example : LeasePool.handle_refcount (LeasePool.acquire three_slots 8).2 fresh_handle ≡ 1
unfolding LeasePool.acquire LeasePool.first_free LeasePool.data_ptr
acquire_example =
    (acquire_lem three_slots three_slots-IsValid 8 {h = fresh_handle} {ptr = some 16}
      {p' = (LeasePool.acquire three_slots 8).2} refl).4

abbrev envelope : Msg Pool
envelope = record zero_msg {
  cookie = msg_cookie;
  event_id = ev_stream_chunk_ready;
  source_actor = act_boot;
  target_actor = act_app;
}

envelope-IsAddressed : IsAddressed envelope
unfolding event_id_is_valid actor_id_is_valid event_meta event_catalog actor_meta actor_catalog
envelope-IsAddressed = record {
  cookie = refl;
  live = refl;
  event = refl;
  source = refl;
  target = inr refl;
}

attach_msg_example : Msg.validate (LeasePool.attach_msg envelope shared_handle three_slots).1 ≡ ok
unfolding LeasePool.handle_slot event_meta event_catalog
attach_msg_example =
    (attach_msg_lem three_slots shared_handle 0 busy_slot envelope three_slots-IsValid refl
      (omega arith) (omega arith) refl envelope-IsAddressed refl).1

abbrev fresh_slot : ℕ → Slot
fresh_slot i = record {
  slot_index = i;
  generation = 0;
  refcount = 0;
  payload_size = 0;
  in_use = false;
}

abbrev fresh_pool : Pool
fresh_pool = record {
  slots = fresh_slot 0 ∷ fresh_slot 1 ∷ [];
  bytes = replicate 16 0;
  slot_count = 2;
  slot_size = 8;
  stats = record {
    acquires = 0;
    failed_acquires = 0;
    retains = 0;
    releases = 0;
    stale_handles = 0;
    in_use = 0;
    high_watermark = 0;
  };
}

fresh_pool-init : LeasePool.init 2 8 ≡ (ok, some fresh_pool)
unfolding LeasePool.init LeasePool.init_slot
fresh_pool-init = refl

Reached-IsValid_example :
    IsValid (LeasePool.release (LeasePool.acquire fresh_pool 4).2 shared_handle).1
Reached-IsValid_example =
    Reached-IsValid (LeasePool.release (LeasePool.acquire fresh_pool 4).2 shared_handle).1
      (released shared_handle (acquired 4 (start 2 8 (omega arith) fresh_pool-init)))
