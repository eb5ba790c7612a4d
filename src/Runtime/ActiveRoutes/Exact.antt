-- ===== src/Runtime/ActiveRoutes/Exact.antt =====
-- The spans of a finalised table are exactly the entries of each event.
use esp8266_event_driven_fra.Prelude.{
  ℕ, zero, suc, ◌+◌, ◌-◌, ◌≤◌, ◌<◌, ◌≡◌, ◌≢◌, ◌↔◌, refl, sym, ap, ◌∙◌, subst, inl, inr, Bool, true,
  false, ◌&&◌, Option, none, some, List, arith, leb, ◌==◌, length, get_or, set, replicate, u32_mod,
  Bool-cases, Option-cases, ==_iff, length-set, length-replicate, get_or-set_self, get_or-set_ne,
  get_or-replicate, lt-length,
}
use esp8266_event_driven_fra.Core.Result.{ok, is_ok}
use esp8266_event_driven_fra.Core.Catalog.{
  event_count, event_catalog, event_meta, event_id_is_valid,
}
use esp8266_event_driven_fra.Core.Route.{Span, empty_span}
use esp8266_event_driven_fra.Runtime.ActiveRoutes.Entries.{ActiveRoute, Table}
use esp8266_event_driven_fra.Runtime.ActiveRoutes.Finalize.{
  event_at, close, extend, finalize_from, finalize_spans, span_for_event,
}

-- An index lies in a span.
abbrev pub InSpan : Span → ℕ → Type 0
InSpan span j = (span.start_index ≤ j) × (j < span.start_index + span.count)

-- The span of an event holds exactly those of the first entries that are of the event.
record IsExact (entries : List ActiveRoute) (i event_id : ℕ) (span : Span) : Type 0 where
  ends : span.start_index + span.count ≤ i
  holds : (j : ℕ) → j < i → (event_at entries j ≡ event_id) ↔ InSpan span j

extend-IsExact :
    (entries : List ActiveRoute) (i event_id : ℕ) (span span' : Span) (event_closed : Bool)
    → IsExact entries i event_id span
    → event_at entries i ≡ event_id
    → suc i < u32_mod
    → extend span event_closed i ≡ some span'
    → IsExact entries (suc i) event_id span'
unfolding extend
extend-IsExact entries i event_id span span' event_closed x here word e =
    elim (Bool-cases (span.count == 0)) [
      | inl new ↦
          let first : Span = record { start_index = i; count = 1 } in
          let same : first ≡ span' = ground arith in
          subst (IsExact entries (suc i) event_id) same (record {
            ends = omega arith;
            holds = λ j h. elim (Bool-cases (j == i)) [
              | inl now ↦
                  let q : j ≡ i = (==_iff _ _).0 now in
                  ((λ _. (omega arith, omega arith)), λ _. ap (event_at entries) q ∙ here)
              | inr before ↦
                  let (there, _) = x.holds j (ground arith) in
                  (
                    (λ ev. let b = there ev in absurd (ground (arith, b.0, b.1))),
                    λ b. absurd (ground (arith, b.0)),
                  )
            ];
          })
      | inr more ↦
          let next : Span = record { start_index = span.start_index; count = span.count + 1 } in
          let sum : span.start_index + span.count ≡ i = ground (arith, x.ends) in
          let same : next ≡ span' = ground (arith, x.ends) in
          subst (IsExact entries (suc i) event_id) same (record {
            ends = omega arith;
            holds = λ j h. elim (Bool-cases (j == i)) [
              | inl now ↦
                  let q : j ≡ i = (==_iff _ _).0 now in
                  ((λ _. (omega arith, omega arith)), λ _. ap (event_at entries) q ∙ here)
              | inr before ↦
                  let (there, back) = x.holds j (ground arith) in
                  (
                    (λ ev. let b = there ev in (b.0, omega (arith, b.1))),
                    λ b. back (b.0, ground (arith, b.1)),
                  )
            ];
          })
    ]

other-IsExact :
    (entries : List ActiveRoute) (i event_id : ℕ) (span : Span)
    → IsExact entries i event_id span
    → event_at entries i ≢ event_id
    → IsExact entries (suc i) event_id span
other-IsExact entries i event_id span x other = record {
  ends = omega (arith, x.ends);
  holds = λ j h. elim (Bool-cases (j == i)) [
    | inl here ↦
        let q : j ≡ i = (==_iff _ _).0 here in
        (
          (λ e. absurd (other (ap (event_at entries) (sym q) ∙ e))),
          λ b. absurd (omega (arith, x.ends, b.1)),
        )
    | inr before ↦ x.holds j (ground arith)
  ];
}

-- The same for every event of the catalogue, with a span for each.
record AllExact (entries : List ActiveRoute) (i : ℕ) (spans : List Span) : Type 0 where
  sized : length spans ≡ event_count
  exact :
      (event_id : ℕ)
      → event_id_is_valid event_id ≡ true
      → IsExact entries i event_id (get_or spans event_id empty_span)

event_id_is_valid-lt : (event_id : ℕ) → event_id_is_valid event_id ≡ true → event_id < event_count
unfolding event_id_is_valid event_meta event_count
event_id_is_valid-lt event_id h = elim (Option-cases (event_meta event_id)) [
  | inl unknown ↦ absurd (ground arith)
  | inr (m, known) ↦ lt-length event_catalog event_id m known
]

set-AllExact :
    (entries : List ActiveRoute) (i : ℕ) (spans : List Span) (span : Span)
    → AllExact entries i spans
    → event_id_is_valid (event_at entries i) ≡ true
    → IsExact entries (suc i) (event_at entries i) span
    → AllExact entries (suc i) (set spans (event_at entries i) span)
set-AllExact entries i spans span all valid x =
    let e = event_at entries i in
    let lt = event_id_is_valid-lt e valid in
    record {
      sized = length-set spans e span ∙ all.sized;
      exact = λ event_id ok_id. elim (Bool-cases (event_id == e)) [
        | inl this ↦
            let q : event_id ≡ e = (==_iff _ _).0 this in
            subst (λ d. IsExact entries (suc i) d (get_or (set spans e span) d empty_span)) (sym q)
              (subst (IsExact entries (suc i) e)
                (sym (get_or-set_self spans e span empty_span (omega (arith, all.sized)))) x)
        | inr other ↦
            let ne : e ≢ event_id = ground arith in
            subst (IsExact entries (suc i) event_id)
              (sym (get_or-set_ne spans e event_id span empty_span ne))
              (other-IsExact entries i event_id _ (all.exact event_id ok_id) ne)
      ];
    }

finalize_from-AllExact :
    (entries : List ActiveRoute) (n i : ℕ) (spans : List Span) (closed : List Bool)
    (previous : Option ℕ)
    → AllExact entries i spans
    → i + n < u32_mod
    → (finalize_from entries n i spans closed previous).0 ≡ ok
    → AllExact entries (i + n) (finalize_from entries n i spans closed previous).1
unfolding finalize_from
finalize_from-AllExact entries zero i spans closed previous all word =
    λ _. subst (λ k. AllExact entries k spans) (omega arith) all
finalize_from-AllExact entries (suc n) i spans closed previous all word =
    let event_id = event_at entries i in
    let closed' = close closed previous event_id in
    let grown = extend (get_or spans event_id empty_span) (get_or closed' event_id false) i in
    elim (Bool-cases (event_id_is_valid event_id)) [
      | inr invalid ↦ rw (invalid, finalize_from) (λ e. absurd (cc e))
      | inl valid ↦ elim (Option-cases grown) [
        | inl apart ↦ rw (valid, finalize_from, apart) (λ e. absurd (cc e))
        | inr (span, e) ↦
            rw (valid, finalize_from, e)
              (λ fine.
                subst
                  (λ k.
                    AllExact entries k
                      (finalize_from entries n (suc i) (set spans event_id span) closed'
                        (some event_id)).1)
                  (omega arith)
                  (finalize_from-AllExact entries n (suc i) _ _ _
                    (set-AllExact entries i spans span all valid (
                      extend-IsExact entries i event_id _ span _ (all.exact event_id valid) refl
                        (omega arith) e))
                    (omega arith) fine))
      ]
    ]

start-AllExact :
    (entries : List ActiveRoute) → AllExact entries 0 (replicate event_count empty_span)
start-AllExact entries = record {
  sized = length-replicate event_count empty_span;
  exact = λ event_id _.
      subst (IsExact entries 0 event_id) (sym (get_or-replicate event_count event_id empty_span))
        (record { ends = omega arith; holds = λ j h. absurd (omega arith) });
}

-- Finalising a table whose count is less than a word, where it succeeds, gives each event of the
-- catalogue the span of exactly the entries that are of the event; where it fails, every event has
-- an empty span.
pub finalize_spans-exact :
    (t : Table) (event_id : ℕ)
    → t.count < u32_mod
    → event_id_is_valid event_id ≡ true
    → let (rc, t') = finalize_spans t in
      let span = span_for_event t' event_id in
      (rc ≡ ok
        → (span.start_index + span.count ≤ t.count)
          × ((j : ℕ) → j < t.count → (event_at t.entries j ≡ event_id) ↔ InSpan span j))
      × (rc ≢ ok → span ≡ empty_span)
unfolding finalize_spans span_for_event
finalize_spans-exact t event_id word valid =
    let (rc, spans) =
      finalize_from t.entries t.count 0 (replicate event_count empty_span)
        (replicate event_count false) none in
    elim (Bool-cases (is_ok rc)) [
      | inr bad ↦
          (λ fine. absurd (ground arith), λ _. rw (bad, finalize_spans, span_for_event) refl)
      | inl fine ↦
          let all =
            finalize_from-AllExact t.entries t.count 0 _ (replicate event_count false) none
              (start-AllExact t.entries) (omega arith) (ground arith) in
          let x = all.exact event_id valid in
          let s = get_or spans event_id empty_span in
          let good : (leb s.start_index t.count && leb s.count (t.count - s.start_index)) ≡ true =
            ground (arith, x.ends) in
          let found : span_for_event (finalize_spans t).1 event_id ≡ s =
            rw (span_for_event, finalize_spans, fine, valid, good) refl in
          rw found (
            (λ _. (omega (arith, x.ends), λ j h. x.holds j (omega arith))),
            λ bad. absurd (bad (ground arith)),
          )
    ]
