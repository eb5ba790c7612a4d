-- ===== src/Runtime/Trace/Buffer.antt =====
-- The records and the operations of runtime/src/ev_trace_ring.c.
--
-- `size_t` is a 32-bit word: `head + count` stays below 64 and does not wrap.
use esp8266_event_driven_fra.Prelude.{
  ℕ, zero, suc, ◌+◌, ◌-◌, ◌%◌, List, [], ◌∷◌, ◌==◌, if◌then◌else◌, get_or, set, replicate, inc32,
}
use esp8266_event_driven_fra.Core.Result.{Result, ok}
use esp8266_event_driven_fra.Core.Route.{Qos, qos_critical}

pub record TraceRecord : Type 0 where
  pub timestamp_us : ℕ
  pub event_id : ℕ
  pub source_actor : ℕ
  pub target_actor : ℕ
  pub result : Result
  pub qos : Qos
  pub queue_depth : ℕ
  pub flags : ℕ

pub record TraceRing : Type 0 where
  pub records : List TraceRecord
  pub head : ℕ
  pub count : ℕ
  pub dropped : ℕ

-- `EV_TRACE_RING_CAPACITY`
abbrev pub capacity : ℕ
capacity = 32

abbrev pub zero_record : TraceRecord
zero_record = record {
  timestamp_us = 0;
  event_id = 0;
  source_actor = 0;
  target_actor = 0;
  result = ok;
  qos = qos_critical;
  queue_depth = 0;
  flags = 0;
}

-- `ev_trace_ring_init`
unfoldable pub init : TraceRing
init = record { records = replicate capacity zero_record; head = 0; count = 0; dropped = 0 }

-- `ev_trace_record`
unfoldable pub record_event : TraceRing → TraceRecord → Result × TraceRing
record_event ring r =
    if ring.count == capacity
    then (
      ok,
      record ring {
        records = set ring.records ring.head r;
        head = (ring.head + 1) % capacity;
        dropped = inc32 ring.dropped;
      },
    )
    else (
      ok,
      record ring {
        records = set ring.records ((ring.head + ring.count) % capacity) r;
        count = ring.count + 1;
      },
    )

-- `ev_trace_pending`
abbrev pub pending : TraceRing → ℕ
pending ring = ring.count

-- `ev_trace_dropped`
abbrev pub dropped : TraceRing → ℕ
dropped ring = ring.dropped

-- `ev_trace_drain`: at most `max_records` rounds of its loop, which ends early on an empty ring.
unfoldable pub drain : TraceRing → ℕ → List TraceRecord × TraceRing
drain ring zero = ([], ring)
drain ring (suc max_records) =
    let (out, ring') =
      drain (record ring { head = (ring.head + 1) % capacity; count = ring.count - 1 })
        max_records in
    if ring.count == 0 then ([], ring) else (get_or ring.records ring.head zero_record ∷ out, ring')

-- `ev_trace_clear`
unfoldable pub clear : TraceRing → TraceRing
clear ring = record ring { head = 0; count = 0 }
