-- ===== src/Runtime/Delivery/Fanout.antt =====
-- `ev_delivery_publish` with its two loops.
use esp8266_event_driven_fra.Prelude.{
  ℕ, zero, suc, Bool, true, false, Option, none, some, List, ◌==◌, if◌then◌else◌, inc32,
}
use esp8266_event_driven_fra.Core.Result.{Result, ok, is_ok, err_not_found}
use esp8266_event_driven_fra.Core.Catalog.{act_watchdog, act_network}
use esp8266_event_driven_fra.Core.Route
use esp8266_event_driven_fra.Core.Route.{Route, Span}
use esp8266_event_driven_fra.Core.Msg.{Msg}
use esp8266_event_driven_fra.Core.Actor
use esp8266_event_driven_fra.Core.Actor.{is_dropped}
use esp8266_event_driven_fra.Runtime.ActiveRoutes
use esp8266_event_driven_fra.Runtime.ActiveRoutes.{ActiveRoute, State}
use esp8266_event_driven_fra.Runtime.Quality.{failure_is_drop_allowed, failure_is_strict}
use esp8266_event_driven_fra.Runtime.Metrics.{
  metric_post_ok, metric_post_dropped, metric_delivery_attempted, metric_delivery_ok,
  metric_delivery_failed, metric_route_disabled_skipped, metric_route_validation_rejected,
  metric_route_qos_conflict,
}
use esp8266_event_driven_fra.Runtime.Delivery.Records.{
  Graph, Report, zero_report, count_metric, emit_fault, trace, record_mailbox_effect,
}

abbrev pub is_enabled : State → Bool
is_enabled State.enabled = true
is_enabled _ = false

abbrev pub is_optional_disabled : State → Bool
is_optional_disabled State.optional_disabled = true
is_optional_disabled _ = false

abbrev pub is_qos_conflict : State → Bool
is_qos_conflict State.rejected_qos_conflict = true
is_qos_conflict _ = false

-- The first error of a report, if it has none yet.
abbrev pub note_error : Result → ℕ → Report → Report
note_error rc target r =
    if is_ok r.first_error then record r { first_error = rc; first_failed_actor = target } else r

-- What a disabled route adds to the report.
abbrev pub count_disabled : ℕ → Report → Report
count_disabled target r = record r {
  dropped = inc32 r.dropped;
  optional_disabled_routes = inc32 r.optional_disabled_routes;
  optional_disabled_watchdog_routes =
      if target == act_watchdog
      then inc32 r.optional_disabled_watchdog_routes
      else r.optional_disabled_watchdog_routes;
  optional_disabled_network_routes =
      if target == act_network
      then inc32 r.optional_disabled_network_routes
      else r.optional_disabled_network_routes;
}

module _ {S : Type 0} where
  -- The end of `ev_delivery_deliver_one`, by the answer and the effect of the mailbox.
  unfoldable pub settle :
      Route → Msg S → Result → Bool → Graph S → Report → Result × Graph S × Report
  settle route m rc dropped g r =
      let r₁ : Report = record r { dropped = inc32 r.dropped } in
      let g₁ = count_metric metric_delivery_failed g in
      if is_ok rc
      then if dropped
        then (ok, count_metric metric_post_dropped g₁, r₁)
        else (ok, count_metric metric_delivery_ok g, record r { delivered = inc32 r.delivered })
      else if failure_is_drop_allowed route.qos
      then (ok, count_metric metric_post_dropped g₁, r₁)
      else (
        rc,
        emit_fault m.source_actor route.target_actor m.event_id rc g₁,
        note_error rc route.target_actor r₁,
      )

  -- A route that was rejected when the table was made.
  unfoldable pub reject_entry : ActiveRoute → Msg S → Graph S → Report → Graph S × Report
  reject_entry entry m g r =
      let g₁ = count_metric metric_route_validation_rejected g in
      let conflict = is_qos_conflict entry.state in
      let g₂ = if conflict then count_metric metric_route_qos_conflict g₁ else g₁ in
      (
        emit_fault m.source_actor entry.route.target_actor m.event_id entry.reason g₂,
        note_error entry.reason entry.route.target_actor (record r {
          dropped = inc32 r.dropped;
          rejected_routes = inc32 r.rejected_routes;
          qos_conflict_routes =
              if conflict then inc32 r.qos_conflict_routes else r.qos_conflict_routes;
        }),
      )

  -- The end of `ev_delivery_publish`.
  unfoldable pub conclude : Result × Graph S × Report → Result × Report × Graph S
  conclude (rc, g, r) =
      if r.matched_routes == 0
      then (
        err_not_found,
        record r { first_error = err_not_found },
        count_metric metric_delivery_failed g,
      )
      else (rc, r, if is_ok rc then count_metric metric_post_ok g else g)

module _ {S : Type 0} (clock : Option (S → Result × ℕ × S)) where
  -- `ev_delivery_deliver_one`
  unfoldable pub deliver_one : Route → Msg S → Graph S → Report → Result × Graph S × Report
  unfolding settle
  deliver_one route m g r =
      let send_msg : Msg S = record m { target_actor = route.target_actor } in
      let g₁ = count_metric metric_delivery_attempted g in
      let (rc, registry, report) =
        Actor.delivery_qos route.target_actor send_msg route.qos g₁.registry in
      let g₂ = trace clock route send_msg rc (record g₁ { registry = registry }) in
      let (g₃, r₁) =
        record_mailbox_effect report.effect g₂ (record r { attempted = inc32 r.attempted }) in
      settle route m rc (is_dropped report.effect) g₃ r₁

  -- The loop of `ev_delivery_publish_active`, by the rounds left, from an index on, with the result
  -- so far.
  unfoldable pub active_from : Msg S → ℕ → ℕ → Result → Graph S → Report → Result × Graph S × Report
  unfolding deliver_one reject_entry
  active_from m zero i rc g r = (rc, g, r)
  active_from m (suc n) i rc g r = elim (ActiveRoutes.route_at g.active_routes i) [
    | none ↦ active_from m n (suc i) rc g r
    | some entry ↦ elim (entry.route.event_id == m.event_id) [
      | false ↦ active_from m n (suc i) rc g r
      | true ↦
          let r₁ : Report = record r { matched_routes = inc32 r.matched_routes } in
          elim (is_optional_disabled entry.state) [
            | true ↦
                active_from m n (suc i) rc (count_metric metric_route_disabled_skipped g)
                  (count_disabled entry.route.target_actor r₁)
            | false ↦ elim (is_enabled entry.state) [
              | false ↦
                  let (g₂, r₂) = reject_entry entry m g r₁ in
                  active_from m n (suc i) entry.reason g₂ r₂
              | true ↦
                  let (rc', g₂, r₂) = deliver_one entry.route m g r₁ in
                  elim (is_ok rc') [
                    | true ↦ active_from m n (suc i) rc g₂ r₂
                    | false ↦ elim (failure_is_strict entry.route.qos) [
                      | true ↦ (rc', g₂, r₂)
                      | false ↦ active_from m n (suc i) rc' g₂ r₂
                    ]
                  ]
            ]
          ]
    ]
  ]

  -- `ev_delivery_publish_active`
  unfoldable pub publish_active : Msg S → Graph S → Report → Result × Graph S × Report
  unfolding active_from
  publish_active m g r =
      let span = ActiveRoutes.span_for_event g.active_routes m.event_id in
      active_from m span.count span.start_index ok g r

module _ {S : Type 0} (clock : Option (S → Result × ℕ × S)) (routes : List Route)
    (spans : List Span) where
  -- The loop of `ev_delivery_publish_static`.
  unfoldable pub static_from : Msg S → ℕ → ℕ → Result → Graph S → Report → Result × Graph S × Report
  unfolding deliver_one
  static_from m zero i rc g r = (rc, g, r)
  static_from m (suc n) i rc g r = elim (Route.route_at routes i) [
    | none ↦ static_from m n (suc i) rc g r
    | some route ↦
        let (rc', g₂, r₂) = deliver_one clock route m g r in
        elim (is_ok rc') [
          | true ↦ static_from m n (suc i) rc g₂ r₂
          | false ↦ elim (failure_is_strict route.qos) [
            | true ↦ (rc', g₂, r₂)
            | false ↦ static_from m n (suc i) rc' g₂ r₂
          ]
        ]
  ]

  -- `ev_delivery_publish_static`
  unfoldable pub publish_static : Msg S → Graph S → Report → Result × Graph S × Report
  unfolding static_from
  publish_static m g r =
      let span = Route.span_for_event routes spans m.event_id in
      static_from m span.count span.start_index ok g (record r { matched_routes = span.count })

  -- `ev_delivery_publish`
  unfoldable pub publish : Msg S → Graph S → Result × Report × Graph S
  unfolding publish_active publish_static conclude
  publish m g = conclude (
      if g.active_routes_bound
      then publish_active clock m g zero_report
      else publish_static m g zero_report)
