-- ===== src/Runtime/Ingress/Service.antt =====
-- The operations of runtime/src/ev_ingress_service.c. The sequence numbers run on over 32-bit words,
-- and the slot of a message is its number modulo 16.
use esp8266_event_driven_fra.Prelude.{
  ℕ, Option, none, some, List, leb, ltb, ◌==◌, if◌then◌else◌, get_or, set, replicate, inc32, sub32,
  bit_and,
}
use esp8266_event_driven_fra.Core.Result.{Result, ok, err_full, err_empty}
use esp8266_event_driven_fra.Core.Msg.{Msg, zero_msg}

pub record Ingress (S : Type 0) : Type 0 where
  pub queue : List (Msg S)
  pub write_seq : ℕ
  pub read_seq : ℕ
  pub high_water : ℕ
  pub pushed : ℕ
  pub dropped : ℕ

-- `EV_INGRESS_CAPACITY`
abbrev pub capacity : ℕ
capacity = 16

-- `EV_INGRESS_MASK`
abbrev pub mask : ℕ
mask = 15

module _ {S : Type 0} where
  -- `ev_ingress_pending_u32`
  abbrev pub pending : Ingress S → ℕ
  pending g = sub32 g.write_seq g.read_seq

  -- `ev_ingress_service_init`
  unfoldable pub init : Ingress S
  init = record {
    queue = replicate capacity zero_msg;
    write_seq = 0;
    read_seq = 0;
    high_water = 0;
    pushed = 0;
    dropped = 0;
  }

  -- `ev_ingress_push`
  unfoldable pub push : Ingress S → Msg S → Result × Ingress S
  push g m =
      let n = pending g in
      if leb capacity n then (err_full, record g { dropped = inc32 g.dropped }) else (
        ok,
        record g {
          queue = set g.queue (bit_and g.write_seq mask) m;
          write_seq = inc32 g.write_seq;
          pushed = inc32 g.pushed;
          high_water = if ltb g.high_water (inc32 n) then inc32 n else g.high_water;
        },
      )

  -- `ev_ingress_pop`: the slot keeps its message.
  unfoldable pub pop : Ingress S → Result × Option (Msg S) × Ingress S
  pop g = if pending g == 0 then (err_empty, none, g) else (
    ok,
    some (get_or g.queue (bit_and g.read_seq mask) zero_msg),
    record g { read_seq = inc32 g.read_seq },
  )
