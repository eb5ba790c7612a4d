-- ===== src/Tests/Routes.antt =====
-- The theorems on routes, qualities, metrics and commands at small tables.
use esp8266_event_driven_fra.Prelude.{
  ℕ, suc, ◌≡◌, ◌≢◌, ◌↔◌, ◌≤◌, ◌+◌, refl, true, none, some, List, [], ◌∷◌, replicate, arith, ◌==◌,
  if◌then◌else◌, add32, bit_and,
}
use esp8266_event_driven_fra.Core.Result.{ok, err_full, err_not_found}
use esp8266_event_driven_fra.Core.Catalog.{
  ev_tick_1s, act_app, act_power, actor_none, event_id_is_valid, actor_id_is_valid, event_meta,
  event_catalog, event_count, actor_meta, actor_catalog,
}
use esp8266_event_driven_fra.Core.Route
use esp8266_event_driven_fra.Core.Route.{Route, Span, qos_critical, qos_command, empty_span}
use esp8266_event_driven_fra.Core.Msg
use esp8266_event_driven_fra.Core.Msg.{Msg}
use esp8266_event_driven_fra.Core.Publish
use esp8266_event_driven_fra.Core.Publish.{Policy, DeliverFn}
use esp8266_event_driven_fra.Core.Publish.Turns.{
  publish_ex-in_turn, verdict, report_of, in_turn, targets,
}
use esp8266_event_driven_fra.Runtime.ActiveRoutes
use esp8266_event_driven_fra.Runtime.ActiveRoutes.{Table, State}
use esp8266_event_driven_fra.Runtime.ActiveRoutes.Exact.{finalize_spans-exact}
use esp8266_event_driven_fra.Runtime.Quality
use esp8266_event_driven_fra.Runtime.Quality.Accepted.{validate_route_iff, is_one_of, policies_of}
use esp8266_event_driven_fra.Runtime.Metrics.{Metrics, metric_count}
use esp8266_event_driven_fra.Runtime.Security
use esp8266_event_driven_fra.Runtime.Security.{Audit}
use esp8266_event_driven_fra.Runtime.Security.Guards.{authorize_iff}
use esp8266_event_driven_fra.Runtime.Faults
use esp8266_event_driven_fra.Runtime.Trace
use esp8266_event_driven_fra.Runtime.Delivery
use esp8266_event_driven_fra.Runtime.Delivery.{Graph}
use esp8266_event_driven_fra.Runtime.Delivery.Accounts.{publish-Balanced, Balanced}
use esp8266_event_driven_fra.Tests.Samples.{tick}

abbrev tick_to : ℕ → Route
tick_to target = record {
  event_id = ev_tick_1s;
  target_actor = target;
  qos = qos_critical;
  priority = 0;
  flags = 0;
}

abbrev two_routes : List Route
two_routes = tick_to act_app ∷ tick_to act_power ∷ []

abbrev tick_spans : List Span
tick_spans = empty_span ∷ empty_span ∷ record { start_index = 0; count = 2 } ∷ []

abbrev broadcast : Msg ℕ
broadcast = record tick { target_actor = actor_none }

-- Every target but the application is full.
abbrev only_app : DeliverFn ℕ ℕ
only_app target m n = if target == act_app then (ok, suc n) else (err_full, n)

broadcast-validate : Msg.validate broadcast ≡ ok
unfolding Msg.validate event_id_is_valid actor_id_is_valid event_meta event_catalog actor_meta
    actor_catalog
broadcast-validate = refl

tick_span : (Route.span_for_event two_routes tick_spans broadcast.event_id).count ≢ 0
unfolding Route.span_for_event Route.span_is_valid event_id_is_valid event_meta event_catalog
tick_span e = absurd (omega (arith, e))

publish_ex-in_turn_example :
    let span = Route.span_for_event two_routes tick_spans broadcast.event_id in
    let (xs, n) = in_turn only_app Policy.best_effort broadcast (targets two_routes span) 0 in
    Publish.publish_ex two_routes tick_spans only_app Policy.best_effort broadcast 0
    ≡ (verdict Policy.best_effort xs, some (report_of span.count xs), n)
publish_ex-in_turn_example =
    publish_ex-in_turn two_routes tick_spans only_app Policy.best_effort broadcast 0
      broadcast-validate refl (omega arith) tick_span

abbrev one_active : Table
one_active = (ActiveRoutes.add ActiveRoutes.init (tick_to act_app) State.enabled ok).1

one_active-count : one_active.count ≡ 1
unfolding ActiveRoutes.add ActiveRoutes.init
one_active-count = refl

tick_is_valid : event_id_is_valid ev_tick_1s ≡ true
unfolding event_id_is_valid event_meta event_catalog
tick_is_valid = refl

one_active-finalized : (ActiveRoutes.finalize_spans one_active).0 ≡ ok
unfolding ActiveRoutes.finalize_spans ActiveRoutes.add ActiveRoutes.init event_id_is_valid
    event_meta event_catalog event_count
one_active-finalized = refl

finalize_spans-exact_example :
    let span = ActiveRoutes.span_for_event (ActiveRoutes.finalize_spans one_active).1 ev_tick_1s in
    span.start_index + span.count ≤ one_active.count
finalize_spans-exact_example =
    ((finalize_spans-exact one_active ev_tick_1s (omega (arith, one_active-count)) tick_is_valid).0
      one_active-finalized).0

validate_route_iff_example :
    ((Quality.validate_route_against_module qos_command 7).0 ≡ ok)
    ↔ (is_one_of 7 (policies_of qos_command) ≡ true)
validate_route_iff_example = (validate_route_iff qos_command 7).0

abbrev quiet_metrics : Metrics
quiet_metrics = record { values = replicate metric_count 0 }

abbrev led_policy : Security.Policy
led_policy = record {
  required_capability = 1;
  min_interval_ms = 100;
  last_accepted_ms = 0xfffffff0;
  replay_protection_enabled = true;
}

abbrev no_audit : Audit
no_audit = record {
  accepted = 0;
  rejected = 0;
  auth_failed = 0;
  authz_failed = 0;
  rate_limited = 0;
  replay_rejected = 0;
}

authorize_iff_example :
    ((Security.authorize 3 led_policy (add32 0xfffffff0 150) no_audit).0 ≡ ok)
    ↔ ((bit_and 3 1 ≡ 1) × (100 ≤ 150))
authorize_iff_example =
    (authorize_iff none none 3 led_policy 150 no_audit (omega arith) (omega arith)).1

-- The table with a route to an actor that is not there, and one that is disabled.
abbrev two_active : Table
two_active =
    (ActiveRoutes.finalize_spans
      (ActiveRoutes.add one_active (tick_to act_power) State.optional_disabled ok).1).1

abbrev small_graph : Graph ℕ
small_graph = record {
  registry = record {
    slots = [];
    stats = record {
      delivery_attempted = 0;
      delivery_succeeded = 0;
      delivery_failed = 0;
      delivery_target_missing = 0;
      last_target_actor = 0;
      last_result = ok;
    };
    owner = 0;
  };
  faults = Faults.init;
  trace_ring = Trace.init;
  metrics = quiet_metrics;
  active_routes = two_active;
  active_routes_bound = true;
}

publish-Balanced_example :
    let (rc, r, g) = Delivery.publish none [] [] broadcast small_graph in
    Balanced r
    × (rc ≡ (
        if (Delivery.publish_active none broadcast small_graph
            Delivery.zero_report).2.matched_routes
          == 0
        then err_not_found
        else (Delivery.publish_active none broadcast small_graph Delivery.zero_report).0))
publish-Balanced_example = publish-Balanced none [] [] broadcast small_graph refl
