-- ===== src/Runtime/ActiveRoutes/Finalize.antt =====
-- The spans of the events in an active route table: `ev_active_route_table_finalize_spans` and the
-- lookup of a span.
use esp8266_event_driven_fra.Prelude.{
  ℕ, zero, suc, ◌-◌, Bool, true, false, not, ◌&&◌, ◌||◌, Option, none, some, List, leb, ◌==◌,
  if◌then◌else◌, get_or, set, replicate, add32, inc32,
}
use esp8266_event_driven_fra.Core.Result.{Result, ok, is_ok, err_out_of_range, err_contract}
use esp8266_event_driven_fra.Core.Catalog.{event_count, event_id_is_valid}
use esp8266_event_driven_fra.Core.Route.{Span, empty_span}
use esp8266_event_driven_fra.Runtime.ActiveRoutes.Entries.{ActiveRoute, Table, zero_entry}

-- The event of the entry at an index.
abbrev pub event_at : List ActiveRoute → ℕ → ℕ
event_at entries i = (get_or entries i zero_entry).route.event_id

-- The event before this one is closed when another follows.
unfoldable pub close : List Bool → Option ℕ → ℕ → List Bool
close closed none event_id = closed
close closed (some previous) event_id =
    if event_id == previous then closed else set closed previous true

-- The span of the event after its entry at index `i`; none for an entry apart from the others.
unfoldable pub extend : Span → Bool → ℕ → Option Span
extend span event_closed i =
    if span.count == 0
    then (if event_closed then none else some (record { start_index = i; count = 1 }))
    else if event_closed || not (add32 span.start_index span.count == i)
    then none
    else some (record span { count = inc32 span.count })

-- The loop of `ev_active_route_table_finalize_spans`, by the rounds left, from an index on.
unfoldable pub finalize_from :
    List ActiveRoute → ℕ → ℕ → List Span → List Bool → Option ℕ → Result × List Span
unfolding extend close
finalize_from entries zero i spans closed previous = (ok, spans)
finalize_from entries (suc n) i spans closed previous =
    let event_id = event_at entries i in
    let closed' = close closed previous event_id in
    elim (event_id_is_valid event_id) [
      | false ↦ (err_out_of_range, spans)
      | true ↦ elim (extend (get_or spans event_id empty_span) (get_or closed' event_id false) i) [
        | none ↦ (err_contract, spans)
        | some span ↦
            finalize_from entries n (suc i) (set spans event_id span) closed' (some event_id)
      ]
    ]

-- `ev_active_route_table_finalize_spans`
unfoldable pub finalize_spans : Table → Result × Table
unfolding finalize_from
finalize_spans t =
    let (rc, spans) =
      finalize_from t.entries t.count 0 (replicate event_count empty_span)
        (replicate event_count false) none in
    (rc, record t { spans = spans; spans_finalized = is_ok rc })

-- `ev_active_route_span_is_valid`
abbrev span_is_valid : Table → Span → Bool
span_is_valid t span = leb span.start_index t.count && leb span.count (t.count - span.start_index)

-- `ev_active_route_table_span_for_event`
unfoldable pub span_for_event : Table → ℕ → Span
span_for_event t event_id =
    if not t.spans_finalized || not (event_id_is_valid event_id)
    then empty_span
    else if not (span_is_valid t (get_or t.spans event_id empty_span))
    then empty_span
    else get_or t.spans event_id empty_span
