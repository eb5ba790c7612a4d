-- ===== src/Tests/Services.antt =====
-- The theorems on the runtime services at small states of each.
use esp8266_event_driven_fra.Prelude.{
  ℕ, suc, if◌then◌else◌, ◌%◌, ◌+◌, ◌==◌, get_elem?, ◌⊎◌, ◌≡◌, ◌≢◌, ◌↔◌, ◌≤◌, refl, true, false,
  none, some, List, [], ◌∷◌, ◌++◌, replicate, add32, arith,
}
use esp8266_event_driven_fra.Core.Result.{ok, err_full, err_not_found}
use esp8266_event_driven_fra.Core.Catalog.{ev_tick_1s, act_app}
use esp8266_event_driven_fra.Runtime.Timer
use esp8266_event_driven_fra.Runtime.Timer.{Token, Slot, Timers, PublishFn}
use esp8266_event_driven_fra.Runtime.Timer.Tokens.{schedule_lem, cancel_lem}
use esp8266_event_driven_fra.Runtime.Timer.Round.{Round}
use esp8266_event_driven_fra.Runtime.Timer.Due.{
  is_due_iff, publish_due-fired, next_deadline_ms-earliest, Pending, NoneEarlier,
}
use esp8266_event_driven_fra.Runtime.Ingress
use esp8266_event_driven_fra.Runtime.Ingress.{Ingress}
use esp8266_event_driven_fra.Runtime.Ingress.Fifo
use esp8266_event_driven_fra.Runtime.Ingress.Fifo.{push-offer, pop-take_first, offer, take_first}
use esp8266_event_driven_fra.Runtime.Trace
use esp8266_event_driven_fra.Runtime.Trace.{TraceRing, TraceRecord}
use esp8266_event_driven_fra.Runtime.Trace.History
use esp8266_event_driven_fra.Runtime.Trace.History.{record_event-held, drain-held, held, keep_last}
use esp8266_event_driven_fra.Runtime.Faults
use esp8266_event_driven_fra.Runtime.Faults.{Fault, Registry}
use esp8266_event_driven_fra.Runtime.Faults.Table
use esp8266_event_driven_fra.Runtime.Faults.Table.{emit-count_of, drain-IsValid}
use esp8266_event_driven_fra.Runtime.Power
use esp8266_event_driven_fra.Runtime.Power.{State, Action}
use esp8266_event_driven_fra.Runtime.Power.Reach.{
  start, taken, refused, path, path_of_Run, wake_boot_unreachable,
}
use esp8266_event_driven_fra.Tests.Samples.{tick}

-- A one-shot timer whose deadline is past the wrap of the clock.
abbrev wrapped_slot : Slot
wrapped_slot = record {
  active = true;
  periodic = false;
  generation = 9;
  deadline_ms = 50;
  period_ms = 100;
  target_actor = act_app;
  event_id = ev_tick_1s;
  arg0 = 7;
}

abbrev one_timer : Timers
one_timer = record {
  slots = wrapped_slot ∷ replicate 15 Timer.zero_slot;
  scheduled = 1;
  cancelled = 0;
  published = 0;
}

abbrev one_token : Token
one_token = record { slot = 0; generation = 9 }

abbrev count_message : PublishFn ℕ
count_message target msg sent = (ok, suc sent)

is_due_example : (Timer.is_due (add32 0xffffffff 100) (add32 0xffffffff 100) ≡ true) ↔ (100 ≤ 100)
is_due_example = is_due_iff 0xffffffff 100 100 (omega arith) (omega arith) (omega arith)

cancel_example : Timer.token_valid (Timer.cancel one_timer one_token).1 one_token ≡ false
unfolding Timer.token_valid
cancel_example = (cancel_lem one_timer one_token (omega arith) refl).1

publish_due_example :
    let (n, svc', s') = Timer.publish_due one_timer 60 (some count_message) 1 0 in
    Round count_message 60 1 one_timer.slots 0 (n, svc'.slots, s')
publish_due_example = (publish_due-fired one_timer 60 count_message 1 0).0

next_deadline_ms_example :
    let (rc, out) = Timer.next_deadline_ms one_timer in
    ((rc ≡ err_not_found) × (out ≡ none) × (Timer.pending_count one_timer ≡ 0))
    ⊎ ((t : ℕ) × (rc ≡ ok)
        × (out ≡ some t)
        × Pending t one_timer.slots
        × NoneEarlier 0xffffff00 t one_timer.slots)
next_deadline_ms_example =
    next_deadline_ms-earliest 0xffffff00 one_timer (omega arith) (ground arith)

schedule_example :
    let (rc, token, svc') = Timer.schedule one_timer 0xffffffff 100 act_app ev_tick_1s 7 true in
    ((rc ≡ err_full)
      × (token ≡ none)
      × (svc' ≡ one_timer)
      × (Timer.pending_count one_timer ≡ Timer.capacity))
    ⊎ ((t : Token) × (old : Slot) × (rc ≡ ok)
        × (token ≡ some t)
        × (Timer.token_valid svc' t ≡ true)
        × (get_elem? one_timer.slots t.slot ≡ some old)
        × (old.active ≡ false)
        × (get_elem? svc'.slots t.slot
            ≡ some (record {
              active = true;
              periodic = true;
              generation =
                  if (old.generation + 1) % 0x10000 == 0 then 1 else (old.generation + 1) % 0x10000;
              deadline_ms = (0xffffffff + 100) % 0x100000000;
              period_ms = 100;
              target_actor = act_app;
              event_id = ev_tick_1s;
              arg0 = 7;
            }))
        × ((k : ℕ) → k ≢ t.slot → get_elem? svc'.slots k ≡ get_elem? one_timer.slots k)
        × (Timer.pending_count svc' ≡ suc (Timer.pending_count one_timer)))
schedule_example =
    schedule_lem one_timer 0xffffffff 100 act_app ev_tick_1s 7 true refl (omega arith)

abbrev some_ingress : Ingress ℕ
some_ingress = record {
  queue = replicate 16 tick;
  write_seq = 1;
  read_seq = 0xffffffff;
  high_water = 2;
  pushed = 2;
  dropped = 0;
}

some_ingress-IsValid : Fifo.IsValid some_ingress
some_ingress-IsValid = record {
  array = refl;
  write_word = omega arith;
  read_word = omega arith;
  within = omega arith;
}

push-offer_example :
    let (rc, g') = Ingress.push some_ingress tick in
    (rc, Fifo.contents g') ≡ offer (Fifo.contents some_ingress) tick
push-offer_example = (push-offer some_ingress tick some_ingress-IsValid).0

pop-take_first_example :
    let (rc, out, g') = Ingress.pop some_ingress in
    (rc, out, Fifo.contents g') ≡ take_first (Fifo.contents some_ingress)
pop-take_first_example = (pop-take_first some_ingress some_ingress-IsValid).0

abbrev full_trace : TraceRing
full_trace = record { records = replicate 32 Trace.zero_record; head = 5; count = 32; dropped = 0 }

full_trace-IsValid : History.IsValid full_trace
full_trace-IsValid = record { array = refl; head_in = omega arith; within = omega arith }

abbrev some_record : TraceRecord
some_record = record Trace.zero_record { flags = 1 }

record_event_example : (Trace.record_event full_trace some_record).1.dropped ≡ 1
record_event_example = (record_event-held full_trace some_record full_trace-IsValid).3

abbrev some_fault : Fault
some_fault = record {
  fault_id = 1;
  severity = Faults.sev_error;
  source_actor = act_app;
  triggering_event = ev_tick_1s;
  source_module = 0;
  timestamp_ms = 10;
  arg0 = 0;
  arg1 = 0;
  counter = 1;
  flags = 0;
}

abbrev one_fault : Registry
one_fault = record { records = some_fault ∷ []; emitted = 1; coalesced = 0; dropped = 0 }

one_fault-IsValid : Table.IsValid one_fault
one_fault-IsValid = record { distinct = (tt, tt); within = omega arith }

emit_example : Table.IsValid (Faults.emit one_fault some_fault).1
emit_example = (emit-count_of one_fault some_fault one_fault-IsValid).0

-- A run into deep sleep, with a step refused on the way.
asleep : List Action
asleep =
    Power.deep_sleep_entered ∷ Power.save_rtc_state ∷ Power.ports_prepared
    ∷ Power.log_flush_complete ∷ Power.drain_complete ∷ Power.request_sleep ∷ []

path_of_Run_example : (before : List Action) × (asleep ≡ path Power.entering_deep_sleep ++ before)
unfolding Power.step Power.transition Power.init asleep
path_of_Run_example = path_of_Run (
    taken Power.deep_sleep_entered none
      (taken Power.save_rtc_state none
        (refused Power.boot_after_wake none
          (taken Power.ports_prepared none
            (taken Power.log_flush_complete none
              (taken Power.drain_complete none (taken Power.request_sleep none start refl) refl)
              refl)
            refl)
          refl)
        refl)
      refl)

wake_boot_unreachable_example :
    (Power.step Power.init Power.request_sleep none).1.state ≢ Power.wake_boot
unfolding Power.step Power.transition Power.init
wake_boot_unreachable_example = wake_boot_unreachable (taken Power.request_sleep none start refl)
