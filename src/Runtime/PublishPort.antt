-- ===== src/Runtime/PublishPort.antt =====
-- The port through which an actor publishes and sends, runtime/src/ev_actor_publish_port.c, with
-- ev_runtime_graph_publish and ev_runtime_graph_send of runtime/src/ev_runtime_graph.c. The graph of
-- a port is passed along beside it.
use esp8266_event_driven_fra.Prelude.{
  ℕ, zero, suc, true, false, not, ◌&&◌, Option, none, some, List, ◌==◌, if◌then◌else◌, inc32,
}
use esp8266_event_driven_fra.Core.Result.{
  Result, ok, is_ok, err_invalid_arg, err_out_of_range, err_state,
}
use esp8266_event_driven_fra.Core.Catalog.{act_watchdog, act_network, actor_id_is_valid}
use esp8266_event_driven_fra.Core.Route.{Route, Span}
use esp8266_event_driven_fra.Core.Msg.{Msg}
use esp8266_event_driven_fra.Core.Actor
use esp8266_event_driven_fra.Runtime.ActiveRoutes
use esp8266_event_driven_fra.Runtime.ActiveRoutes.{ActiveRoute, Table}
use esp8266_event_driven_fra.Runtime.Metrics.{metric_route_disabled_skipped}
use esp8266_event_driven_fra.Runtime.Delivery
use esp8266_event_driven_fra.Runtime.Delivery.{
  Graph, Report, count_metric, is_enabled, is_optional_disabled,
}
pub mod Sends

pub record Stats : Type 0 where
  pub sends_attempted : ℕ
  pub sends_ok : ℕ
  pub optional_disabled_routes : ℕ
  pub optional_disabled_watchdog_routes : ℕ
  pub optional_disabled_network_routes : ℕ
  pub failed : ℕ

pub record Port : Type 0 where
  pub source_actor : ℕ
  pub stats : Stats

abbrev pub zero_stats : Stats
zero_stats = record {
  sends_attempted = 0;
  sends_ok = 0;
  optional_disabled_routes = 0;
  optional_disabled_watchdog_routes = 0;
  optional_disabled_network_routes = 0;
  failed = 0;
}

abbrev pub count_sent : Result → Stats → Stats
count_sent rc st =
    if is_ok rc
    then record st { sends_ok = inc32 st.sends_ok }
    else record st { failed = inc32 st.failed }

-- What a send over a disabled route adds to the counters.
abbrev pub count_skipped : ℕ → Stats → Stats
count_skipped target st = record st {
  optional_disabled_routes = inc32 st.optional_disabled_routes;
  optional_disabled_watchdog_routes =
      if target == act_watchdog
      then inc32 st.optional_disabled_watchdog_routes
      else st.optional_disabled_watchdog_routes;
  optional_disabled_network_routes =
      if target == act_network
      then inc32 st.optional_disabled_network_routes
      else st.optional_disabled_network_routes;
}

-- The loop of `ev_actor_publish_find_route`, by the rounds left, from an index on.
unfoldable find_from : Table → ℕ → ℕ → ℕ → ℕ → Option ActiveRoute
find_from routes event_id target zero i = none
find_from routes event_id target (suc n) i = elim (ActiveRoutes.route_at routes i) [
  | none ↦ find_from routes event_id target n (suc i)
  | some entry ↦ elim (entry.route.event_id == event_id && entry.route.target_actor == target) [
    | true ↦ some entry
    | false ↦ find_from routes event_id target n (suc i)
  ]
]

-- `ev_actor_publish_find_route`
unfoldable pub find_route : Table → ℕ → ℕ → Option ActiveRoute
unfolding find_from
find_route routes event_id target =
    let span = ActiveRoutes.span_for_event routes event_id in
    find_from routes event_id target span.count span.start_index

-- `ev_actor_publish_port_init`
unfoldable pub init : ℕ → Port → Result × Port
init source_actor port =
    if not (actor_id_is_valid source_actor)
    then (err_invalid_arg, port)
    else (ok, record { source_actor = source_actor; stats = zero_stats })

module _ {S : Type 0} where
  -- `ev_runtime_graph_send`
  unfoldable pub graph_send : ℕ → Msg S → Graph S → Result × Graph S
  graph_send target m g =
      let send_msg : Msg S = record m { target_actor = target } in
      let (rc, registry) = Actor.delivery target send_msg g.registry in
      if not (actor_id_is_valid target)
      then (err_out_of_range, g)
      else (rc, record g { registry = registry })

  -- `ev_actor_send` once the attempt is counted, by the route that was found.
  unfoldable send_over : ℕ → Msg S → Option ActiveRoute → Stats → Graph S → Result × Stats × Graph S
  unfolding graph_send
  send_over target m route st g =
      let (rc, g') = graph_send target m g in
      elim route [
        | none ↦ (rc, count_sent rc st, g')
        | some entry ↦
            if is_optional_disabled entry.state
            then (ok, count_skipped target st, count_metric metric_route_disabled_skipped g)
            else if not (is_enabled entry.state)
            then (
              if is_ok entry.reason then err_state else entry.reason,
              record st { failed = inc32 st.failed },
              g,
            )
            else (rc, count_sent rc st, g')
      ]

  -- `ev_actor_send`
  unfoldable pub send : ℕ → Msg S → Port → Graph S → Result × Port × Graph S
  unfolding send_over
  send target m port g =
      if not (actor_id_is_valid target)
      then (err_out_of_range, port, g)
      else let st : Stats = record (port.stats) {
        sends_attempted = inc32 port.stats.sends_attempted;
      } in
        let (rc, st', g') =
          send_over target m (find_route g.active_routes m.event_id target) st g in
        (rc, record port { stats = st' }, g')

module _ {S : Type 0} (clock : Option (S → Result × ℕ × S)) (routes : List Route)
    (spans : List Span) where
  -- `ev_actor_publish` and `ev_runtime_graph_publish`
  unfoldable pub publish : Msg S → Graph S → Result × Report × Graph S
  publish m g = Delivery.publish clock routes spans m g
