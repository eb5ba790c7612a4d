-- ===== src/Core/Route/Table.antt =====
-- The static route table of core/src/ev_route_table.c. The tables themselves come from a header that
-- the build generates, and are parameters.
use esp8266_event_driven_fra.Prelude.{
  ℕ, zero, suc, ◌-◌, Bool, true, false, not, ◌&&◌, Option, none, some, List, leb, ◌==◌,
  if◌then◌else◌, get_elem?, length,
}
use esp8266_event_driven_fra.Core.Catalog.{event_id_is_valid, actor_id_is_valid}
use esp8266_event_driven_fra.Core.Route.Types.{Route, Span}

abbrev pub empty_span : Span
empty_span = record { start_index = 0; count = 0 }

module _ (routes : List Route) where
  -- `ev_route_span_is_valid`
  unfoldable pub span_is_valid : Span → Bool
  span_is_valid span =
      leb span.start_index (length routes) && leb span.count (length routes - span.start_index)

  -- `ev_route_count`
  unfoldable pub route_count : ℕ
  route_count = length routes

  -- `ev_route_at`
  unfoldable pub route_at : ℕ → Option Route
  route_at index = get_elem? routes index

  -- The loop of `ev_route_exists`, by the rounds left, from an index on.
  unfoldable pub exists_from : ℕ → ℕ → ℕ → Bool
  exists_from target_actor zero i = false
  exists_from target_actor (suc n) i =
      let rest = exists_from target_actor n (suc i) in
      elim (get_elem? routes i) [
        | none ↦ rest
        | some route ↦ if route.target_actor == target_actor then true else rest
      ]

module _ (routes : List Route) (spans : List Span) where
  -- `ev_route_span_for_event`
  unfoldable pub span_for_event : ℕ → Span
  unfolding span_is_valid
  span_for_event event_id =
      if not (event_id_is_valid event_id) then empty_span else elim (get_elem? spans event_id) [
        | none ↦ empty_span
        | some span ↦ if not (span_is_valid routes span) then empty_span else span
      ]

  -- `ev_route_count_for_event`
  unfoldable pub count_for_event : ℕ → ℕ
  count_for_event event_id = (span_for_event event_id).count

  -- `ev_route_exists`
  unfoldable pub exists : ℕ → ℕ → Bool
  unfolding exists_from
  exists event_id target_actor =
      let span = span_for_event event_id in
      if not (actor_id_is_valid target_actor)
      then false
      else exists_from routes target_actor span.count span.start_index
