-- ===== src/Runtime/Delivery/Records.antt =====
-- The members of the runtime graph that the delivery service acts on, and what it records there. The
-- clock of the platform is a parameter: none without a port, else a function on the state S that all
-- callbacks act on, with a result and the time in microseconds.
use esp8266_event_driven_fra.Prelude.{
  ℕ, ◌%◌, Bool, Option, none, some, ◌==◌, if◌then◌else◌, inc32, u32_mod,
}
use esp8266_event_driven_fra.Core.Result.{
  Result, ok, err_invalid_arg, err_out_of_range, err_not_found, err_state, err_contract, err_full,
  err_empty, err_unsupported, err_partial, err_no_capability, err_auth, err_policy, err_timeout,
  err_not_ready, is_ok,
}
use esp8266_event_driven_fra.Core.Catalog.{actor_none}
use esp8266_event_driven_fra.Core.Route.{Route}
use esp8266_event_driven_fra.Core.Msg.{Msg}
use esp8266_event_driven_fra.Core.Mailbox.{Effect}
use esp8266_event_driven_fra.Core.Actor.{System}
use esp8266_event_driven_fra.Runtime.Faults
use esp8266_event_driven_fra.Runtime.Faults.{Fault}
use esp8266_event_driven_fra.Runtime.Trace
use esp8266_event_driven_fra.Runtime.Trace.{TraceRing, TraceRecord}
use esp8266_event_driven_fra.Runtime.Metrics
use esp8266_event_driven_fra.Runtime.Metrics.{
  Metrics, metric_fault_emitted, metric_mailbox_overflow, metric_trace_dropped,
  metric_qos_coalesced, metric_qos_replaced, metric_qos_dropped,
}
use esp8266_event_driven_fra.Runtime.ActiveRoutes.{Table}

pub record Graph (S : Type 0) : Type 0 where
  pub registry : System S
  pub faults : Faults.Registry
  pub trace_ring : TraceRing
  pub metrics : Metrics
  pub active_routes : Table
  pub active_routes_bound : Bool

pub record Report : Type 0 where
  pub matched_routes : ℕ
  pub attempted : ℕ
  pub delivered : ℕ
  pub dropped : ℕ
  pub first_error : Result
  pub first_failed_actor : ℕ
  pub optional_disabled_routes : ℕ
  pub optional_disabled_watchdog_routes : ℕ
  pub optional_disabled_network_routes : ℕ
  pub rejected_routes : ℕ
  pub qos_conflict_routes : ℕ
  pub coalesced : ℕ
  pub replaced : ℕ
  pub qos_dropped : ℕ
  pub mailbox_policy_rejected : ℕ

-- `ev_delivery_report_reset`
abbrev pub zero_report : Report
zero_report = record {
  matched_routes = 0;
  attempted = 0;
  delivered = 0;
  dropped = 0;
  first_error = ok;
  first_failed_actor = actor_none;
  optional_disabled_routes = 0;
  optional_disabled_watchdog_routes = 0;
  optional_disabled_network_routes = 0;
  rejected_routes = 0;
  qos_conflict_routes = 0;
  coalesced = 0;
  replaced = 0;
  qos_dropped = 0;
  mailbox_policy_rejected = 0;
}

-- `-result`, for the constants of the enumeration.
abbrev negated : Result → ℕ
negated ok = 0
negated err_invalid_arg = 1
negated err_out_of_range = 2
negated err_not_found = 3
negated err_state = 4
negated err_contract = 5
negated err_full = 6
negated err_empty = 7
negated err_unsupported = 8
negated err_partial = 9
negated err_no_capability = 10
negated err_auth = 11
negated err_policy = 12
negated err_timeout = 13
negated err_not_ready = 14

-- `EV_FAULT_MAILBOX_OVERFLOW`
abbrev fault_mailbox_overflow : ℕ
fault_mailbox_overflow = 0x0102

abbrev is_err_full : Result → Bool
is_err_full rc = negated rc == negated err_full

module _ {S : Type 0} where
  -- `ev_metric_increment` by 1 on the metrics of the graph.
  unfoldable pub count_metric : ℕ → Graph S → Graph S
  count_metric id g = record g { metrics = (Metrics.increment g.metrics id 1).1 }

  -- `ev_delivery_emit_fault`
  unfoldable pub emit_fault : ℕ → ℕ → ℕ → Result → Graph S → Graph S
  unfolding count_metric
  emit_fault source_actor target_actor event_id result g =
      let fault : Fault = record {
        fault_id = fault_mailbox_overflow;
        severity = Faults.Severity.sev_error;
        source_actor = source_actor;
        triggering_event = event_id;
        source_module = 0;
        timestamp_ms = 0;
        arg0 = target_actor;
        arg1 = negated result;
        counter = 0;
        flags = 0;
      } in
      let (rc, faults) = Faults.emit g.faults fault in
      let g₁ : Graph S = record g { faults = faults } in
      let g₂ = if is_ok rc then count_metric metric_fault_emitted g₁ else g₁ in
      if is_err_full result then count_metric metric_mailbox_overflow g₂ else g₂

  -- `ev_delivery_trace_timestamp_us`
  unfoldable pub trace_timestamp_us : Option (S → Result × ℕ × S) → Graph S → ℕ × Graph S
  trace_timestamp_us none g = (0, g)
  trace_timestamp_us (some mono_now_us) g =
      let (rc, now_us, owner) = mono_now_us g.registry.owner in
      let g₁ : Graph S = record g { registry = record (g.registry) { owner = owner } } in
      (if is_ok rc then now_us % u32_mod else 0, g₁)

  -- `ev_delivery_trace`
  unfoldable pub trace : Option (S → Result × ℕ × S) → Route → Msg S → Result → Graph S → Graph S
  unfolding trace_timestamp_us count_metric
  trace clock route m result g =
      let (now_us, g₁) = trace_timestamp_us clock g in
      let rec : TraceRecord = record {
        timestamp_us = now_us;
        event_id = m.event_id;
        source_actor = m.source_actor;
        target_actor = route.target_actor;
        result = result;
        qos = route.qos;
        queue_depth = 0;
        flags = route.flags;
      } in
      let (rc, ring) = Trace.record_event g₁.trace_ring rec in
      let g₂ : Graph S = record g₁ { trace_ring = ring } in
      if is_ok rc then g₂ else count_metric metric_trace_dropped g₂

  -- `ev_delivery_record_mailbox_effect`
  unfoldable pub record_mailbox_effect : Effect → Graph S → Report → Graph S × Report
  unfolding count_metric
  record_mailbox_effect Effect.coalesced g r =
      (count_metric metric_qos_coalesced g, record r { coalesced = inc32 r.coalesced })
  record_mailbox_effect Effect.replaced g r =
      (count_metric metric_qos_replaced g, record r { replaced = inc32 r.replaced })
  record_mailbox_effect Effect.dropped g r =
      (count_metric metric_qos_dropped g, record r { qos_dropped = inc32 r.qos_dropped })
  record_mailbox_effect Effect.rejected g r =
      (g, record r { mailbox_policy_rejected = inc32 r.mailbox_policy_rejected })
  record_mailbox_effect Effect.posted g r = (g, r)
