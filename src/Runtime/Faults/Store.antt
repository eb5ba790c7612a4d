-- ===== src/Runtime/Faults/Store.antt =====
-- The records and the operations of runtime/src/ev_fault_bus.c. The registry's array is modelled by
-- its first `count` records: no operation reads past them.
use esp8266_event_driven_fra.Prelude.{
  ℕ, Bool, ◌&&◌, Option, none, some, List, [], ◌∷◌, ◌++◌, leb, ltb, ◌==◌, if◌then◌else◌, length,
  take, drop, inc32,
}
use esp8266_event_driven_fra.Core.Result.{Result, ok, err_full}

pub data Severity : Type 0 where
  sev_info sev_warning sev_error sev_critical : Severity

pub record Fault : Type 0 where
  pub fault_id : ℕ
  pub severity : Severity
  pub source_actor : ℕ
  pub triggering_event : ℕ
  pub source_module : ℕ
  pub timestamp_ms : ℕ
  pub arg0 : ℕ
  pub arg1 : ℕ
  pub counter : ℕ
  pub flags : ℕ

pub record Registry : Type 0 where
  pub records : List Fault
  pub emitted : ℕ
  pub coalesced : ℕ
  pub dropped : ℕ

-- `EV_FAULT_STORE_CAPACITY`
abbrev pub capacity : ℕ
capacity = 16

-- `ev_fault_same_key`
abbrev pub same_key : Fault → Fault → Bool
same_key a b =
    (a.fault_id == b.fault_id)
    && (a.source_actor == b.source_actor)
    && (a.triggering_event == b.triggering_event)

-- `ev_fault_registry_init`
unfoldable pub init : Registry
init = record { records = []; emitted = 0; coalesced = 0; dropped = 0 }

-- The loop of `ev_fault_emit`: the records with the first one of the key counted once more.
unfoldable pub count_again : List Fault → Fault → Option (List Fault)
count_again [] payload = none
count_again (r ∷ rs) payload =
    let rest = count_again rs payload in
    if same_key r payload
    then some (record r { counter = inc32 r.counter } ∷ rs)
    else elim rest [ none ↦ none | some rs' ↦ some (r ∷ rs') ]

-- `ev_fault_emit`
unfoldable pub emit : Registry → Fault → Result × Registry
emit g payload = elim (count_again g.records payload) [
  | some records ↦
      (ok, record g { records = records; coalesced = inc32 g.coalesced; emitted = inc32 g.emitted })
  | none ↦
      if leb capacity (length g.records)
      then (err_full, record g { dropped = inc32 g.dropped; emitted = inc32 g.emitted })
      else (
        ok,
        record g {
          records = g.records ++ record payload { counter = 1 } ∷ [];
          emitted = inc32 g.emitted;
        },
      )
]

-- `ev_fault_pending_count`
abbrev pub pending_count : Registry → ℕ
pending_count g = length g.records

-- `ev_fault_drain`: the records copied out, and the others moved to the front.
unfoldable pub drain : Registry → ℕ → List Fault × Registry
drain g max_records =
    let n = if ltb (length g.records) max_records then length g.records else max_records in
    (take n g.records, record g { records = drop n g.records })

-- `ev_fault_ack_all`
unfoldable pub ack_all : Registry → Result × Registry
ack_all g = (ok, record g { records = [] })
