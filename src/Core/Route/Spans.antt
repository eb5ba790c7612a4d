-- ===== src/Core/Route/Spans.antt =====
-- The span of an event lies in the table, and the lookup of a route goes through it.
use esp8266_event_driven_fra.Prelude.{
  ℕ, ◌+◌, ◌≤◌, inl, inr, List, arith, length, get_elem?, Bool-cases, Option-cases,
}
use esp8266_event_driven_fra.Core.Catalog.{event_id_is_valid}
use esp8266_event_driven_fra.Core.Route.Types.{Route, Span}
use esp8266_event_driven_fra.Core.Route.Table.{span_is_valid, span_for_event}

pub span_for_event-within :
    (routes : List Route) (spans : List Span) (event_id : ℕ)
    → let span = span_for_event routes spans event_id in
      span.start_index + span.count ≤ length routes
unfolding span_for_event span_is_valid
span_for_event-within routes spans event_id = elim (Bool-cases (event_id_is_valid event_id)) [
  | inr invalid ↦ rw (invalid, span_for_event) (omega arith)
  | inl valid ↦ elim (Option-cases (get_elem? spans event_id)) [
    | inl missing ↦ rw (valid, span_for_event, missing) (omega arith)
    | inr (span, e) ↦ elim (Bool-cases (span_is_valid routes span)) [
      | inr bad ↦ rw (valid, span_for_event, e, bad) (omega arith)
      | inl good ↦ rw (valid, span_for_event, e, good) (ground arith)
    ]
  ]
]
