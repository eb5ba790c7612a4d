-- ===== src/Runtime/Metrics/Registry.antt =====
-- The values of the metrics and the operations on them.
use esp8266_event_driven_fra.Prelude.{
  ℕ, zero, suc, List, [], ◌∷◌, Option, none, some, not, ltb, leb, if◌then◌else◌, get_or, set,
  replicate, add32,
}
use esp8266_event_driven_fra.Core.Result.{Result, ok, err_invalid_arg, err_partial}

pub data Kind : Type 0 where
  counter gauge : Kind

pub record Sample : Type 0 where
  pub id : ℕ
  pub value : ℕ
  pub kind : Kind

pub record Metrics : Type 0 where
  pub values : List ℕ

-- `EV_METRIC_COUNT`
abbrev pub metric_count : ℕ
metric_count = 49

-- The identifiers that the modelled code names.
abbrev pub metric_post_ok : ℕ
metric_post_ok = 0

abbrev pub metric_post_dropped : ℕ
metric_post_dropped = 1

abbrev pub metric_delivery_attempted : ℕ
metric_delivery_attempted = 4

abbrev pub metric_delivery_ok : ℕ
metric_delivery_ok = 5

abbrev pub metric_delivery_failed : ℕ
metric_delivery_failed = 6

abbrev pub metric_mailbox_overflow : ℕ
metric_mailbox_overflow = 20

abbrev pub metric_fault_emitted : ℕ
metric_fault_emitted = 29

abbrev pub metric_trace_dropped : ℕ
metric_trace_dropped = 31

abbrev pub metric_route_disabled_skipped : ℕ
metric_route_disabled_skipped = 38

abbrev pub metric_route_validation_rejected : ℕ
metric_route_validation_rejected = 39

abbrev pub metric_route_qos_conflict : ℕ
metric_route_qos_conflict = 41

abbrev pub metric_qos_coalesced : ℕ
metric_qos_coalesced = 42

abbrev pub metric_qos_replaced : ℕ
metric_qos_replaced = 43

abbrev pub metric_qos_dropped : ℕ
metric_qos_dropped = 44

-- `ev_metric_registry_init`
unfoldable pub init : Metrics
init = record { values = replicate metric_count 0 }

-- `ev_metric_increment`
unfoldable pub increment : Metrics → ℕ → ℕ → Result × Metrics
increment r id delta =
    if not (ltb id metric_count)
    then (err_invalid_arg, r)
    else (ok, record { values = set r.values id (add32 (get_or r.values id 0) delta) })

-- `ev_metric_set_gauge`
unfoldable pub set_gauge : Metrics → ℕ → ℕ → Result × Metrics
set_gauge r id value =
    if not (ltb id metric_count)
    then (err_invalid_arg, r)
    else if ltb (get_or r.values id 0) value
    then (ok, record { values = set r.values id value })
    else (ok, r)

abbrev sample_at : Metrics → ℕ → Sample
sample_at r id = record { id = id; value = get_or r.values id 0; kind = Kind.counter }

-- `ev_metric_read`; the sample is written on success.
unfoldable pub read : Metrics → ℕ → Result × Option Sample
read r id =
    if not (ltb id metric_count) then (err_invalid_arg, none) else (ok, some (sample_at r id))

-- The loop of `ev_metric_snapshot`, from an identifier on.
unfoldable pub samples_from : Metrics → ℕ → ℕ → List Sample
samples_from r zero i = []
samples_from r (suc n) i = sample_at r i ∷ samples_from r n (suc i)

-- `ev_metric_snapshot`, with the samples that it writes.
unfoldable pub snapshot : Metrics → ℕ → Result × List Sample
unfolding samples_from
snapshot r capacity = (
  if leb metric_count capacity then ok else err_partial,
  samples_from r (if ltb metric_count capacity then metric_count else capacity) 0,
)
