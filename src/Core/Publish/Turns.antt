-- ===== src/Core/Publish/Turns.antt =====
-- What a publication does, over the list of targets of the event.
use esp8266_event_driven_fra.Prelude.{
  ℕ, zero, suc, ◌+◌, ◌-◌, ◌≤◌, ◌<◌, ◌≡◌, ◌≢◌, refl, ap, ◌∙◌, inl, inr, true, not, Option, none,
  some, List, [], ◌∷◌, map, arith, ltb, ◌==◌, length, take, drop, get_elem?, if◌then◌else◌, u32_mod,
  Bool-cases, Option-cases, ne→==, length-take, length-drop,
}
use esp8266_event_driven_fra.Core.Result.{Result, ok, is_ok, err_partial}
use esp8266_event_driven_fra.Core.Catalog.{actor_none}
use esp8266_event_driven_fra.Core.Route
use esp8266_event_driven_fra.Core.Route.{Route, Span}
use esp8266_event_driven_fra.Core.Route.Spans.{span_for_event-within}
use esp8266_event_driven_fra.Core.Msg
use esp8266_event_driven_fra.Core.Msg.{Msg}
use esp8266_event_driven_fra.Core.Publish.Run.{
  Policy, fail_fast, best_effort, Report, DeliverFn, zero_report, is_fail_fast, tally, publish_from,
  conclude, publish_ex,
}

-- The targets of a span, in order.
abbrev pub targets : List Route → Span → List ℕ
targets routes span = map (λ r. r.target_actor) (take span.count (drop span.start_index routes))

-- The deliveries that failed, in order.
abbrev pub failures : List (ℕ × Result) → List (ℕ × Result)
failures [] = []
failures ((t, rc) ∷ xs) = if is_ok rc then failures xs else (t, rc) ∷ failures xs

-- The answer to deliveries with these results.
abbrev pub verdict : Policy → List (ℕ × Result) → Result
verdict policy xs = elim (failures xs) [
  | [] ↦ ok
  | (t, rc) ∷ rest ↦
      if is_fail_fast policy
      then rc
      else if ltb (length (failures xs)) (length xs)
      then err_partial
      else rc
]

-- The report of deliveries with these results.
abbrev pub report_of : ℕ → List (ℕ × Result) → Report
report_of matched xs = record {
  matched_routes = matched;
  attempted_deliveries = length xs;
  delivered_count = length xs - length (failures xs);
  failed_count = length (failures xs);
  first_failed_actor = elim (failures xs) [ [] ↦ actor_none | (t, rc) ∷ rest ↦ t ];
  first_error = elim (failures xs) [ [] ↦ ok | (t, rc) ∷ rest ↦ rc ];
}

module _ {S C : Type 0} (deliver : DeliverFn S C) where
  -- Delivery to one target after the other; failing fast stops after the first that fails.
  abbrev pub in_turn : Policy → Msg S → List ℕ → C → List (ℕ × Result) × C
  in_turn policy m [] c = ([], c)
  in_turn policy m (t ∷ ts) c =
      let (rc, c') = deliver t m c in
      let (xs, c'') = in_turn policy m ts c' in
      if not (is_ok rc)
      then (if is_fail_fast policy then ((t, rc) ∷ [], c') else ((t, rc) ∷ xs, c''))
      else ((t, rc) ∷ xs, c'')

  in_turn-le :
      (policy : Policy) (m : Msg S) (ts : List ℕ) (c : C)
      → length (in_turn policy m ts c).0 ≤ length ts
  in_turn-le policy m [] c = omega arith
  in_turn-le policy m (t ∷ ts) c =
      let (rc, c') = deliver t m c in
      let rest = in_turn-le policy m ts c' in
      elim (Bool-cases (is_ok rc)) [
        | inl fine ↦ rw fine (omega (arith, rest))
        | inr bad ↦ elim (Bool-cases (is_fail_fast policy)) [
          | inl fast ↦ rw (bad, fast) (omega arith)
          | inr slow ↦ rw (bad, slow) (omega (arith, rest))
        ]
      ]

length-map {ℓ κ} :
    {A : Type ℓ} {B : Type κ} (f : A → B) (xs : List A) → length (map f xs) ≡ length xs
length-map f [] = refl
length-map f (x ∷ xs) = ap suc (length-map f xs)

targets-le : (routes : List Route) (span : Span) → length (targets routes span) ≤ length routes
targets-le routes span = omega (
  arith,
  length-map (λ (r : Route). r.target_actor) (take span.count (drop span.start_index routes)),
  length-take span.count (drop span.start_index routes),
  length-drop span.start_index routes,
)

-- One report after another, by the results of the deliveries.
abbrev tally_all : List (ℕ × Result) → Report → Report
tally_all [] r = r
tally_all ((t, rc) ∷ xs) r = tally_all xs (tally t rc r)

failures-le : (xs : List (ℕ × Result)) → length (failures xs) ≤ length xs
failures-le [] = omega arith
failures-le ((t, rc) ∷ xs) = ground (arith, failures-le xs)

-- What tallying adds to a report whose counters do not wrap.
record Adds (xs : List (ℕ × Result)) (r r' : Report) : Type 0 where
  matched : r'.matched_routes ≡ r.matched_routes
  attempted : r'.attempted_deliveries ≡ r.attempted_deliveries + length xs
  delivered : r'.delivered_count + length (failures xs) ≡ r.delivered_count + length xs
  failed : r'.failed_count ≡ r.failed_count + length (failures xs)
  first_actor : r'.first_failed_actor ≡ (
      if is_ok r.first_error
      then elim (failures xs) [ [] ↦ r.first_failed_actor | (t, rc) ∷ rest ↦ t ]
      else r.first_failed_actor)
  first_error : r'.first_error ≡ (
      if is_ok r.first_error
      then elim (failures xs) [ [] ↦ r.first_error | (t, rc) ∷ rest ↦ rc ]
      else r.first_error)

tally_all-Adds :
    (xs : List (ℕ × Result)) (r : Report)
    → r.attempted_deliveries + length xs < u32_mod
    → r.delivered_count + length xs < u32_mod
    → r.failed_count + length xs < u32_mod
    → Adds xs r (tally_all xs r)
unfolding tally
tally_all-Adds [] r a b c = record {
  matched = refl;
  attempted = omega arith;
  delivered = omega arith;
  failed = omega arith;
  first_actor = ground arith;
  first_error = ground arith;
}
tally_all-Adds ((t, rc) ∷ xs) r a b c = elim (Bool-cases (is_ok rc)) [
  | inl fine ↦
      let p = tally_all-Adds xs (tally t rc r) (ground arith) (ground arith) (ground arith) in
      (record {
        matched = p.matched ∙ ground arith;
        attempted = ground (arith, p.attempted);
        delivered = ground (arith, p.delivered);
        failed = ground (arith, p.failed);
        first_actor = ground (arith, p.first_actor);
        first_error = ground (arith, p.first_error);
      })
  | inr bad ↦
      let p = tally_all-Adds xs (tally t rc r) (ground arith) (ground arith) (ground arith) in
      (record {
        matched = p.matched ∙ ground arith;
        attempted = ground (arith, p.attempted);
        delivered = ground (arith, p.delivered);
        failed = ground (arith, p.failed);
        first_actor = ground (arith, p.first_actor);
        first_error = ground (arith, p.first_error);
      })
]

drop-get_elem? {ℓ} :
    {A : Type ℓ} (xs : List A) (i : ℕ) (x : A)
    → get_elem? xs i ≡ some x
    → drop i xs ≡ x ∷ drop (suc i) xs
drop-get_elem? [] i x e = absurd (cc e)
drop-get_elem? (y ∷ xs) zero x e = let q : y ≡ x = cc e in ap (λ z. z ∷ xs) q
drop-get_elem? (y ∷ xs) (suc i) x e = drop-get_elem? xs i x e

get_elem?-none_le {ℓ} : {A : Type ℓ} (xs : List A) (i : ℕ) → get_elem? xs i ≡ none → length xs ≤ i
get_elem?-none_le [] i e = omega arith
get_elem?-none_le (x ∷ xs) zero e = absurd (cc e)
get_elem?-none_le (x ∷ xs) (suc i) e = omega (arith, get_elem?-none_le xs i e)

-- Where the loop returns early.
abbrev early : Policy → List (ℕ × Result) → Option Result
early policy xs =
    if is_fail_fast policy
    then elim (failures xs) [ [] ↦ none | (t, rc) ∷ rest ↦ some rc ]
    else none

Report-eq :
    (r r' : Report)
    → r.matched_routes ≡ r'.matched_routes
    → r.attempted_deliveries ≡ r'.attempted_deliveries
    → r.delivered_count ≡ r'.delivered_count
    → r.failed_count ≡ r'.failed_count
    → r.first_failed_actor ≡ r'.first_failed_actor
    → r.first_error ≡ r'.first_error
    → r ≡ r'
Report-eq r r' a b c d e f = rw (a, b, c, d, e, f) refl

-- The end of the function on the report of deliveries of which these failed.
conclude-of :
    {C : Type 0} (policy : Policy) (matched : ℕ) (fs : List (ℕ × Result)) (n : ℕ) (c : C)
    → length fs ≤ n
    → let k = length fs in
      let r : Report = record {
        matched_routes = matched;
        attempted_deliveries = n;
        delivered_count = n - length fs;
        failed_count = length fs;
        first_failed_actor = elim fs [ [] ↦ actor_none | (t, rc) ∷ rest ↦ t ];
        first_error = elim fs [ [] ↦ ok | (t, rc) ∷ rest ↦ rc ];
      } in
      conclude (
        if is_fail_fast policy then elim fs [ [] ↦ none | (t, rc) ∷ rest ↦ some rc ] else none,
        r,
        c,
      )
      ≡ (
        elim fs [
          | [] ↦ ok
          | (t, rc) ∷ rest ↦ if is_fail_fast policy then rc else if ltb k n then err_partial else rc
        ],
        some r,
        c,
      )
unfolding conclude
conclude-of fail_fast matched [] n c h = refl
conclude-of best_effort matched [] n c h = refl
conclude-of fail_fast matched ((t, rc) ∷ fs) n c h = refl
conclude-of best_effort matched ((t, rc) ∷ fs) n c h = ground arith

module _ {S C : Type 0} (routes : List Route) (spans : List Span) (deliver : DeliverFn S C)
    (policy : Policy) (m : Msg S) where
  publish_from-in_turn :
      (n i : ℕ) (r : Report) (c : C)
      → i + n ≤ length routes
      → let (xs, c') =
          in_turn deliver policy m (map (λ x. x.target_actor) (take n (drop i routes))) c in
        publish_from routes spans deliver policy m n i r c ≡ (early policy xs, tally_all xs r, c')
  unfolding publish_from Route.route_at
  publish_from-in_turn zero i r c h = ground arith
  publish_from-in_turn (suc n) i r c h = elim (Option-cases (get_elem? routes i)) [
    | inl out ↦ absurd (omega (arith, get_elem?-none_le routes i out))
    | inr (route, e) ↦
        let (rc, c') = deliver route.target_actor m c in
        let rest =
          publish_from-in_turn n (suc i) (tally route.target_actor rc r) c' (omega arith) in
        rw (drop-get_elem? routes i route e) (elim (Bool-cases (is_ok rc)) [
          | inl fine ↦ rw (e, publish_from, fine, rest, fine) refl
          | inr bad ↦ elim (Bool-cases (is_fail_fast policy)) [
            | inl fast ↦ rw (e, publish_from, bad, fast, bad) refl
            | inr slow ↦ rw (e, publish_from, bad, slow, rest, slow) refl
          ]
        ])
  ]

  -- The report and the answer after the loop.
  conclude-verdict :
      (matched : ℕ) (xs : List (ℕ × Result)) (c : C)
      → length xs < u32_mod
      → conclude
          (early policy xs, tally_all xs (record zero_report { matched_routes = matched }), c)
        ≡ (verdict policy xs, some (report_of matched xs), c)
  unfolding conclude
  conclude-verdict matched xs c word =
      let a =
        tally_all-Adds xs (record zero_report { matched_routes = matched }) (omega arith)
          (omega arith) (omega arith) in
      let le = failures-le xs in
      let same : tally_all xs (record zero_report { matched_routes = matched })
          ≡ report_of matched xs =
        Report-eq _ _ a.matched (omega (arith, a.attempted)) (omega (arith, a.delivered))
          (omega (arith, a.failed)) a.first_actor a.first_error in
      rw same (conclude-of policy matched (failures xs) (length xs) c le)

  -- A publication of a valid message without target, whose event has routes, over a table that is
  -- not longer than a word, delivers to the targets of the routes of the event, in order: to each of
  -- them on best effort, and up to the first failure where it fails fast. It answers ok without a
  -- failure, with that failure where it fails fast, and on best effort with the first failure if
  -- each delivery failed and as partial if one did not; and the report counts these deliveries.
  pub publish_ex-in_turn :
      (c : C)
      → Msg.validate m ≡ ok
      → m.target_actor ≡ actor_none
      → length routes < u32_mod
      → (Route.span_for_event routes spans m.event_id).count ≢ 0
      → let span = Route.span_for_event routes spans m.event_id in
        let (xs, c') = in_turn deliver policy m (targets routes span) c in
        publish_ex routes spans deliver policy m c
        ≡ (verdict policy xs, some (report_of span.count xs), c')
  unfolding publish_ex
  publish_ex-in_turn c fine open_target word some_routes =
      let span = Route.span_for_event routes spans m.event_id in
      let (xs, c') = in_turn deliver policy m (targets routes span) c in
      let t : (m.target_actor == actor_none) ≡ true = ground arith in
      rw (fine, publish_ex, t, ne→== span.count 0 some_routes)
        (ap conclude (
            publish_from-in_turn span.count span.start_index _ c
              (span_for_event-within routes spans m.event_id))
          ∙ conclude-verdict span.count xs c' (
              omega (
                arith,
                in_turn-le deliver policy m (targets routes span) c,
                targets-le routes span,
              )))
