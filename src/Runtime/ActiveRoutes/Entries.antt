-- ===== src/Runtime/ActiveRoutes/Entries.antt =====
-- The table of runtime/include/ev/active_route_table.h, and how it grows. Each quality of service is
-- a declared constant, so `ev_route_qos_is_valid` always holds.
use esp8266_event_driven_fra.Prelude.{
  ℕ, Bool, true, false, Option, none, some, List, leb, if◌then◌else◌, get_or, set, replicate, inc32,
}
use esp8266_event_driven_fra.Core.Result.{Result, ok, err_full}
use esp8266_event_driven_fra.Core.Catalog.{event_count}
use esp8266_event_driven_fra.Core.Route.{
  Qos, qos_critical, qos_best_effort, qos_lossy, qos_coalesced, qos_latest_only,
  qos_wakeup_critical, qos_telemetry, qos_command, Route, Span, empty_span,
}

-- `EV_ACTIVE_ROUTE_TABLE_CAPACITY`
abbrev pub capacity : ℕ
capacity = 96

pub data State : Type 0 where
  enabled optional_disabled rejected_invalid_event rejected_invalid_actor : State
  rejected_missing_mandatory_actor rejected_qos_conflict rejected_overflow : State

pub record ActiveRoute : Type 0 where
  pub route : Route
  pub state : State
  pub reason : Result

pub record Table : Type 0 where
  pub entries : List ActiveRoute
  pub spans : List Span
  pub count : ℕ
  pub active_count : ℕ
  pub optional_disabled_count : ℕ
  pub rejected_count : ℕ
  pub spans_finalized : Bool

-- An entry of a table that was cleared.
abbrev pub zero_entry : ActiveRoute
zero_entry = record {
  route = record { event_id = 0; target_actor = 0; qos = qos_critical; priority = 0; flags = 0 };
  state = State.enabled;
  reason = ok;
}

-- `ev_active_route_table_init`
unfoldable pub init : Table
init = record {
  entries = replicate capacity zero_entry;
  spans = replicate event_count empty_span;
  count = 0;
  active_count = 0;
  optional_disabled_count = 0;
  rejected_count = 0;
  spans_finalized = false;
}

-- What an entry adds to the counts by state.
unfoldable pub count_state : State → Table → Table
count_state State.enabled t = record t { active_count = inc32 t.active_count }
count_state State.optional_disabled t = record t {
  optional_disabled_count = inc32 t.optional_disabled_count;
}
count_state _ t = record t { rejected_count = inc32 t.rejected_count }

-- `ev_active_route_table_add`
unfoldable pub add : Table → Route → State → Result → Result × Table
unfolding count_state
add t route state reason = if leb capacity t.count then (err_full, t) else (
  ok,
  count_state state (record t {
    entries = set t.entries t.count (record { route = route; state = state; reason = reason });
    count = inc32 t.count;
    spans_finalized = false;
  }),
)

-- `ev_active_route_at`
unfoldable pub route_at : Table → ℕ → Option ActiveRoute
route_at t index = if leb t.count index then none else some (get_or t.entries index zero_entry)

-- `ev_route_qos_is_valid`
unfoldable pub qos_is_valid : Qos → Bool
qos_is_valid qos_critical = true
qos_is_valid qos_best_effort = true
qos_is_valid qos_lossy = true
qos_is_valid qos_coalesced = true
qos_is_valid qos_latest_only = true
qos_is_valid qos_wakeup_critical = true
qos_is_valid qos_telemetry = true
qos_is_valid qos_command = true
