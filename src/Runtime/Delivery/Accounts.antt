-- ===== src/Runtime/Delivery/Accounts.antt =====
-- What the report of a fan-out over the active routes of ev_delivery_service.c adds up to.
use esp8266_event_driven_fra.Prelude.{
  ℕ, zero, suc, ◌%◌, ◌+◌, ◌≡◌, refl, ap, List, sym, subst, inl, inr, Bool, true, false, Option,
  ◌==◌, if◌then◌else◌, inc32, u32_mod, arith, Bool-cases, Option-cases,
}
use esp8266_event_driven_fra.Core.Result.{Result, ok, is_ok, err_not_found}
use esp8266_event_driven_fra.Core.Route.{Route, Span}
use esp8266_event_driven_fra.Core.Msg.{Msg}
use esp8266_event_driven_fra.Core.Mailbox.{Effect}
use esp8266_event_driven_fra.Core.Actor
use esp8266_event_driven_fra.Core.Actor.{is_dropped}
use esp8266_event_driven_fra.Runtime.ActiveRoutes
use esp8266_event_driven_fra.Runtime.ActiveRoutes.{ActiveRoute}
use esp8266_event_driven_fra.Runtime.Quality.{failure_is_drop_allowed, failure_is_strict}
use esp8266_event_driven_fra.Runtime.Metrics.{metric_delivery_attempted}
use esp8266_event_driven_fra.Runtime.Delivery.Records.{
  Graph, Report, zero_report, count_metric, record_mailbox_effect, trace,
}
use esp8266_event_driven_fra.Runtime.Delivery.Fanout.{
  is_enabled, is_optional_disabled, note_error, count_disabled, settle, reject_entry, conclude,
  deliver_one, active_from, publish_active, publish_static, publish,
}

-- The books of a report: what was matched, what came to an end, and what was taken up.
pub record Books (matched ended tried : ℕ) (r : Report) : Type 0 where
  pub routes : r.matched_routes ≡ matched
  pub outcomes : ended ≡ (r.delivered + r.dropped) % u32_mod
  pub tries : tried ≡ (r.attempted + r.optional_disabled_routes + r.rejected_routes) % u32_mod

abbrev pub Balanced : Report → Type 0
Balanced r = Books r.matched_routes r.matched_routes r.matched_routes r

Books-Balanced : (k : ℕ) (r : Report) → Books k k k r → Balanced r
Books-Balanced k r b = subst (λ n. Books n n n r) (sym b.routes) b

if-Books :
    {A : Type 0} (k e t : ℕ) (f : A → Report) (b : Bool) (x y : A)
    → Books k e t (f x)
    → Books k e t (f y)
    → Books k e t (f (if b then x else y))
if-Books k e t f true x y p q = p
if-Books k e t f false x y p q = q

note_error-Books :
    (k e t : ℕ) (rc : Result) (target : ℕ) (r : Report)
    → Books k e t r
    → Books k e t (note_error rc target r)
note_error-Books k e t rc target r b =
    if-Books k e t (λ x. x) (is_ok r.first_error) _ _
      (record { routes = b.routes; outcomes = b.outcomes; tries = b.tries }) b

-- One more message was dropped.
drop-Books :
    (k e t : ℕ) (r : Report)
    → Books k e t r
    → Books k (inc32 e) t (record r { dropped = inc32 r.dropped })
drop-Books k e t r b = record {
  routes = b.routes;
  outcomes = omega (arith, b.outcomes);
  tries = b.tries;
}

disabled-Books :
    (k e t target : ℕ) (r : Report)
    → Books k e t r
    → Books k (inc32 e) (inc32 t) (count_disabled target r)
disabled-Books k e t target r b = record {
  routes = b.routes;
  outcomes = omega (arith, b.outcomes);
  tries = omega (arith, b.tries);
}

match-Books :
    (k e t : ℕ) (r : Report)
    → Books k e t r
    → Books (inc32 k) e t (record r { matched_routes = inc32 r.matched_routes })
match-Books k e t r b = record {
  routes = ap inc32 b.routes;
  outcomes = b.outcomes;
  tries = b.tries;
}

module _ {S : Type 0} where
  effect-Books :
      (k e t : ℕ) (effect : Effect) (g : Graph S) (r : Report)
      → Books k e t r
      → Books k e t (record_mailbox_effect effect g r).1
  unfolding record_mailbox_effect
  effect-Books k e t Effect.coalesced g r b = record {
    routes = b.routes;
    outcomes = b.outcomes;
    tries = b.tries;
  }
  effect-Books k e t Effect.replaced g r b = record {
    routes = b.routes;
    outcomes = b.outcomes;
    tries = b.tries;
  }
  effect-Books k e t Effect.dropped g r b = record {
    routes = b.routes;
    outcomes = b.outcomes;
    tries = b.tries;
  }
  effect-Books k e t Effect.rejected g r b = record {
    routes = b.routes;
    outcomes = b.outcomes;
    tries = b.tries;
  }
  effect-Books k e t Effect.posted g r b = b

  settle-Books :
      (k e t : ℕ) (route : Route) (m : Msg S) (rc : Result) (dropped : Bool) (g : Graph S)
      (r : Report)
      → Books k e t r
      → Books k (inc32 e) t (settle route m rc dropped g r).2
  unfolding settle
  settle-Books k e t route m rc dropped g r b =
      let d = drop-Books k e t r b in
      let third : Result × Graph S × Report → Report = λ x. x.2 in
      if-Books k (inc32 e) t third (is_ok rc) _ _
        (if-Books k (inc32 e) t third dropped _ _ d
          (record { routes = b.routes; outcomes = omega (arith, b.outcomes); tries = b.tries }))
        (if-Books k (inc32 e) t third (failure_is_drop_allowed route.qos) _ _ d
          (note_error-Books k (inc32 e) t rc route.target_actor _ d))

  reject_entry-Books :
      (k e t : ℕ) (entry : ActiveRoute) (m : Msg S) (g : Graph S) (r : Report)
      → Books k e t r
      → Books k (inc32 e) (inc32 t) (reject_entry entry m g r).1
  unfolding reject_entry
  reject_entry-Books k e t entry m g r b =
      note_error-Books k (inc32 e) (inc32 t) entry.reason entry.route.target_actor _ (record {
        routes = b.routes;
        outcomes = omega (arith, b.outcomes);
        tries = omega (arith, b.tries);
      })

module _ {S : Type 0} (clock : Option (S → Result × ℕ × S)) where
  deliver_one-Books :
      (k e t : ℕ) (route : Route) (m : Msg S) (g : Graph S) (r : Report)
      → Books k e t r
      → Books k (inc32 e) (inc32 t) (deliver_one clock route m g r).2
  unfolding deliver_one
  deliver_one-Books k e t route m g r b =
      let send_msg : Msg S = record m { target_actor = route.target_actor } in
      let g₁ = count_metric metric_delivery_attempted g in
      let (rc, registry, report) =
        Actor.delivery_qos route.target_actor send_msg route.qos g₁.registry in
      let g₂ = trace clock route send_msg rc (record g₁ { registry = registry }) in
      let r₁ : Report = record r { attempted = inc32 r.attempted } in
      let b₁ : Books k e (inc32 t) r₁ = record {
        routes = b.routes;
        outcomes = b.outcomes;
        tries = omega (arith, b.tries);
      } in
      settle-Books k e (inc32 t) route m rc (is_dropped report.effect) _ _
        (effect-Books k e (inc32 t) report.effect g₂ r₁ b₁)

  active_from-Balanced :
      (m : Msg S) (n i : ℕ) (rc : Result) (g : Graph S) (r : Report)
      → Balanced r
      → Balanced (active_from clock m n i rc g r).2
  unfolding active_from
  active_from-Balanced m zero i rc g r b = b
  active_from-Balanced m (suc n) i rc g r b =
      elim (Option-cases (ActiveRoutes.route_at g.active_routes i)) [
        | inl out ↦ rw (out, active_from) (active_from-Balanced m n (suc i) rc g r b)
        | inr (entry, e) ↦ elim (Bool-cases (entry.route.event_id == m.event_id)) [
          | inr other ↦ rw (e, active_from, other) (active_from-Balanced m n (suc i) rc g r b)
          | inl ours ↦
              let k = r.matched_routes in
              let r₁ : Report = record r { matched_routes = inc32 k } in
              let b₁ = match-Books k k k r b in
              elim (Bool-cases (is_optional_disabled entry.state)) [
                | inl disabled ↦
                    let c = disabled-Books (inc32 k) k k entry.route.target_actor r₁ b₁ in
                    rw (e, active_from, ours, disabled) (active_from-Balanced m n (suc i) rc _ _ c)
                | inr live ↦ elim (Bool-cases (is_enabled entry.state)) [
                  | inr refused ↦
                      let c = reject_entry-Books (inc32 k) k k entry m g r₁ b₁ in
                      rw (e, active_from, ours, live, refused)
                        (active_from-Balanced m n (suc i) entry.reason _ _ (Books-Balanced _ _ c))
                  | inl enabled ↦
                      let c = deliver_one-Books (inc32 k) k k entry.route m g r₁ b₁ in
                      let (rc', g₂, r₂) = deliver_one clock entry.route m g r₁ in
                      let d = Books-Balanced (inc32 k) r₂ c in
                      elim (Bool-cases (is_ok rc')) [
                        | inl fine ↦
                            rw (e, active_from, ours, live, enabled, fine)
                              (active_from-Balanced m n (suc i) rc g₂ r₂ d)
                        | inr failed ↦ elim (Bool-cases (failure_is_strict entry.route.qos)) [
                          | inl strict ↦ rw (e, active_from, ours, live, enabled, failed, strict) d
                          | inr mild ↦
                              rw (e, active_from, ours, live, enabled, failed, mild)
                                (active_from-Balanced m n (suc i) rc' g₂ r₂ d)
                        ]
                      ]
                ]
              ]
        ]
      ]

  publish_active-Balanced :
      (m : Msg S) (g : Graph S) → Balanced (publish_active clock m g zero_report).2
  unfolding publish_active
  publish_active-Balanced m g =
      let span = ActiveRoutes.span_for_event g.active_routes m.event_id in
      active_from-Balanced m span.count span.start_index ok g zero_report
        (record { routes = refl; outcomes = refl; tries = refl })

conclude-Balanced :
    {S : Type 0} (rc : Result) (g : Graph S) (r : Report)
    → Balanced r
    → Balanced (conclude (rc, g, r)).1
      × ((conclude (rc, g, r)).0 ≡ (if r.matched_routes == 0 then err_not_found else rc))
unfolding conclude
conclude-Balanced rc g r b = elim (Bool-cases (r.matched_routes == 0)) [
  | inl nothing ↦
      rw (nothing, conclude)
        (record { routes = refl; outcomes = b.outcomes; tries = b.tries }, refl)
  | inr some_routes ↦ rw (some_routes, conclude) (b, refl)
]

-- A publication over the active routes of a runtime accounts for each route of the event that it
-- matched, modulo the width of a counter: it was either delivered to or dropped, and it was either
-- attempted, found disabled as optional, or refused as rejected. The publication answers not found
-- where the count of matched routes is 0, and else with the result of the fan-out.
pub publish-Balanced :
    {S : Type 0} (clock : Option (S → Result × ℕ × S)) (routes : List Route) (spans : List Span)
    (m : Msg S) (g : Graph S)
    → g.active_routes_bound ≡ true
    → let (rc, r, g') = publish clock routes spans m g in
      Balanced r
      × (rc ≡ (
          if (publish_active clock m g zero_report).2.matched_routes == 0
          then err_not_found
          else (publish_active clock m g zero_report).0))
unfolding publish
publish-Balanced clock routes spans m g bound =
    let active = publish_active clock m g zero_report in
    subst
      (λ b.
        let x =
          conclude (if b then active else publish_static clock routes spans m g zero_report) in
        Balanced x.1 × (x.0 ≡ (if active.2.matched_routes == 0 then err_not_found else active.0)))
      (sym bound) (conclude-Balanced active.0 active.1 active.2 (publish_active-Balanced clock m g))
