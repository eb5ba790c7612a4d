-- ===== src/Core/Publish/Run.antt =====
-- `ev_publish_ex`, `ev_publish` and `ev_send`. The delivery callback acts on the state C that its
-- context points at.
use esp8266_event_driven_fra.Prelude.{
  ℕ, zero, suc, Bool, true, false, not, ◌||◌, Option, none, some, List, ltb, ◌==◌, if◌then◌else◌,
  inc32,
}
use esp8266_event_driven_fra.Core.Result.{
  Result, ok, is_ok, err_out_of_range, err_not_found, err_contract, err_partial,
}
use esp8266_event_driven_fra.Core.Catalog.{actor_none, actor_id_is_valid}
use esp8266_event_driven_fra.Core.Route
use esp8266_event_driven_fra.Core.Route.{Route, Span}
use esp8266_event_driven_fra.Core.Msg
use esp8266_event_driven_fra.Core.Msg.{Msg}

pub data Policy : Type 0 where
  fail_fast best_effort : Policy

pub record Report : Type 0 where
  pub matched_routes : ℕ
  pub attempted_deliveries : ℕ
  pub delivered_count : ℕ
  pub failed_count : ℕ
  pub first_failed_actor : ℕ
  pub first_error : Result

-- `ev_publish_report_reset`
abbrev pub zero_report : Report
zero_report = record {
  matched_routes = 0;
  attempted_deliveries = 0;
  delivered_count = 0;
  failed_count = 0;
  first_failed_actor = actor_none;
  first_error = ok;
}

-- `ev_delivery_fn_t`
abbrev pub DeliverFn : Type 0 → Type 0 → Type 0
DeliverFn S C = ℕ → Msg S → C → Result × C

-- `policy == EV_PUBLISH_FAIL_FAST`
abbrev pub is_fail_fast : Policy → Bool
is_fail_fast fail_fast = true
is_fail_fast best_effort = false

-- What the report says after a delivery to the target answered `rc`.
unfoldable pub tally : ℕ → Result → Report → Report
tally target rc r =
    if is_ok rc
    then record r {
      attempted_deliveries = inc32 r.attempted_deliveries;
      delivered_count = inc32 r.delivered_count;
    }
    else record r {
      attempted_deliveries = inc32 r.attempted_deliveries;
      failed_count = inc32 r.failed_count;
      first_error = if is_ok r.first_error then rc else r.first_error;
      first_failed_actor = if is_ok r.first_error then target else r.first_failed_actor;
    }

module _ {C : Type 0} where
  -- How the function returns after the loop.
  unfoldable pub conclude : Option Result × Report × C → Result × Option Report × C
  conclude (some rc, r, c) = (rc, some r, c)
  conclude (none, r, c) = (
    if r.failed_count == 0
        then ok
        else if ltb 0 r.delivered_count
        then err_partial
        else r.first_error,
    some r,
    c,
  )

module _ {S C : Type 0} (routes : List Route) (spans : List Span) (deliver : DeliverFn S C) where
  -- The loop of `ev_publish_ex`, by the rounds left, from an index on; some for an early return.
  unfoldable pub publish_from : Policy → Msg S → ℕ → ℕ → Report → C → Option Result × Report × C
  unfolding tally
  publish_from policy m zero i r c = (none, r, c)
  publish_from policy m (suc n) i r c = elim (Route.route_at routes i) [
    | none ↦ publish_from policy m n (suc i) r c
    | some route ↦
        let (rc, c') = deliver route.target_actor m c in
        let r' = tally route.target_actor rc r in
        elim (not (is_ok rc)) [
          | false ↦ publish_from policy m n (suc i) r' c'
          | true ↦ elim (is_fail_fast policy) [
            | true ↦ (some rc, r', c')
            | false ↦ publish_from policy m n (suc i) r' c'
          ]
        ]
  ]

  -- `ev_publish_ex`: the report is written on some returns only.
  unfoldable pub publish_ex : Policy → Msg S → C → Result × Option Report × C
  unfolding publish_from conclude
  publish_ex policy m c =
      let rc = Msg.validate m in
      let span = Route.span_for_event routes spans m.event_id in
      let r : Report = record zero_report { matched_routes = span.count } in
      if not (is_ok rc)
      then (rc, none, c)
      else if not (m.target_actor == actor_none)
      then (err_contract, none, c)
      else if span.count == 0
      then (err_not_found, some (record r { first_error = err_not_found }), c)
      else conclude (publish_from policy m span.count span.start_index r c)

  -- `ev_publish`, with the count of deliveries.
  unfoldable pub publish : Msg S → C → Result × ℕ × C
  unfolding publish_ex
  publish m c =
      let (rc, report, c') = publish_ex fail_fast m c in
      (rc, elim report [ none ↦ 0 | some r ↦ r.delivered_count ], c')

module _ {S C : Type 0} (deliver : DeliverFn S C) where
  -- `ev_send`
  unfoldable pub send : ℕ → Msg S → C → Result × C
  send target_actor m c =
      let rc = Msg.validate m in
      if (target_actor == actor_none) || not (actor_id_is_valid target_actor)
      then (err_out_of_range, c)
      else if not (is_ok rc)
      then (rc, c)
      else if not (m.target_actor == target_actor)
      then (err_contract, c)
      else deliver target_actor m c
