-- ===== src/Tests/Samples.antt =====
-- Messages, mailboxes and pools to run the code on. The owner of a payload is a count of its shares.
use esp8266_event_driven_fra.Prelude.{
  ℕ, ◌+◌, ◌-◌, true, false, some, List, [], ◌∷◌, replicate, refl, arith,
}
use esp8266_event_driven_fra.Core.Result.{ok}
use esp8266_event_driven_fra.Core.Catalog.{
  MailboxKind, fifo_8, lossy_ring_8, ev_tick_1s, ev_stream_chunk_ready, act_boot, act_app,
}
use esp8266_event_driven_fra.Core.Msg.{
  Msg, External, zero_msg, msg_cookie, storage_external, RetainFn, ReleaseFn,
}
use esp8266_event_driven_fra.Core.Mailbox.{Mailbox}
use esp8266_event_driven_fra.Core.Mailbox.{zero_stats}
use esp8266_event_driven_fra.Core.Mailbox.Ring.{IsValid}
use esp8266_event_driven_fra.Core.LeasePool.{Slot, Pool, Handle}

abbrev pub one_more : RetainFn ℕ
one_more ctx payload size shares = (ok, shares + 1)

abbrev pub one_less : ReleaseFn ℕ
one_less ctx payload size shares = shares - 1

abbrev pub tick : Msg ℕ
tick = record zero_msg {
  cookie = msg_cookie;
  event_id = ev_tick_1s;
  source_actor = act_boot;
  target_actor = act_app;
}

abbrev pub later_tick : Msg ℕ
later_tick = record tick { source_actor = act_app }

abbrev pub lease_payload : External ℕ
lease_payload = record {
  payload = some 64;
  size = 10;
  retain_fn = some one_more;
  release_fn = some one_less;
  lifecycle_ctx = some 0;
}

abbrev pub empty_chunk : Msg ℕ
empty_chunk = record zero_msg {
  cookie = msg_cookie;
  event_id = ev_stream_chunk_ready;
  source_actor = act_boot;
  target_actor = act_app;
}

abbrev pub chunk : Msg ℕ
chunk = record empty_chunk {
  storage = storage_external;
  payload_size = 10;
  external = lease_payload;
}

abbrev pub mailbox_of : MailboxKind → List (Msg ℕ) → ℕ → ℕ → ℕ → Mailbox ℕ
mailbox_of kind storage head tail count = record {
  kind = kind;
  storage = storage;
  storage_count = 8;
  storage_mask = 7;
  head = head;
  tail = tail;
  count = count;
  stats = zero_stats;
}

-- A tick and a chunk, going round at the end of the array.
abbrev pub two_pending : Mailbox ℕ
two_pending =
    mailbox_of fifo_8
      (chunk ∷ zero_msg ∷ zero_msg ∷ zero_msg ∷ zero_msg ∷ zero_msg ∷ zero_msg ∷ tick ∷ []) 7 1 2

-- Eight chunks, the oldest in slot 3.
abbrev pub full_ring : Mailbox ℕ
full_ring = mailbox_of lossy_ring_8 (replicate 8 chunk) 3 3 8

abbrev pub busy_slot : Slot
busy_slot = record { slot_index = 0; generation = 5; refcount = 2; payload_size = 4; in_use = true }

abbrev pub last_slot : Slot
last_slot = record { slot_index = 1; generation = 7; refcount = 1; payload_size = 8; in_use = true }

abbrev pub idle_slot : Slot
idle_slot = record {
  slot_index = 2;
  generation = 3;
  refcount = 0;
  payload_size = 0;
  in_use = false;
}

abbrev pub three_slots : Pool
three_slots = record {
  slots = busy_slot ∷ last_slot ∷ idle_slot ∷ [];
  bytes = replicate 24 0;
  slot_count = 3;
  slot_size = 8;
  stats = record {
    acquires = 3;
    failed_acquires = 0;
    retains = 1;
    releases = 1;
    stale_handles = 0;
    in_use = 2;
    high_watermark = 2;
  };
}

abbrev pub shared_handle : Handle
shared_handle = record { slot = some 0; generation = 5 }

abbrev pub last_handle : Handle
last_handle = record { slot = some 1; generation = 7 }

pub two_pending-IsValid : IsValid two_pending
two_pending-IsValid = record {
  sized = refl;
  array = refl;
  masked = refl;
  head_in = omega arith;
  tail_at = refl;
  within = omega arith;
}
