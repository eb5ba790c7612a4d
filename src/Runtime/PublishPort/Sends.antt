-- ===== src/Runtime/PublishPort/Sends.antt =====
-- What a send through the port of an actor does, runtime/src/ev_actor_publish_port.c.
use esp8266_event_driven_fra.Prelude.{
  ℕ, zero, suc, ◌%◌, ◌+◌, ◌≡◌, refl, sym, subst, ◌∙◌, false, ◌&&◌, Option, none, some, ◌==◌, inc32,
  u32_mod, arith, Bool-cases, Option-cases, inl, inr,
}
use esp8266_event_driven_fra.Core.Result.{Result, is_ok}
use esp8266_event_driven_fra.Core.Catalog.{actor_id_is_valid}
use esp8266_event_driven_fra.Core.Msg.{Msg}
use esp8266_event_driven_fra.Runtime.ActiveRoutes
use esp8266_event_driven_fra.Runtime.ActiveRoutes.{ActiveRoute, Table}
use esp8266_event_driven_fra.Runtime.Delivery.{
  Graph, count_metric, is_enabled, is_optional_disabled,
}
use esp8266_event_driven_fra.Runtime.PublishPort
use esp8266_event_driven_fra.Runtime.PublishPort.{
  Stats, Port, count_sent, count_skipped, find_from, find_route, send_over,
}

-- Each attempt was sent, skipped over a disabled route, or failed; the counters are words.
abbrev pub Balanced : Stats → Type 0
Balanced st = st.sends_attempted ≡ (st.sends_ok + st.optional_disabled_routes + st.failed) % u32_mod

count_sent-Balanced :
    (rc : Result) (st : Stats)
    → Balanced st
    → Balanced (count_sent rc (record st { sends_attempted = inc32 st.sends_attempted }))
count_sent-Balanced rc st b = elim (Bool-cases (is_ok rc)) [
  | inl fine ↦ rw fine (omega (arith, b))
  | inr bad ↦ rw bad (omega (arith, b))
]

find_from_sound :
    (routes : Table) (event_id target n i : ℕ) (entry : ActiveRoute)
    → find_from routes event_id target n i ≡ some entry
    → (entry.route.event_id ≡ event_id) × (entry.route.target_actor ≡ target)
unfolding find_from
find_from_sound routes event_id target zero i entry e = absurd (cc e)
find_from_sound routes event_id target (suc n) i entry e =
    elim (Option-cases (ActiveRoutes.route_at routes i)) [
      | inl out ↦
          let step : find_from routes event_id target (suc n) i
              ≡ find_from routes event_id target n (suc i) =
            rw (out, find_from) refl in
          find_from_sound routes event_id target n (suc i) entry (sym step ∙ e)
      | inr (x, found) ↦
          elim (Bool-cases (x.route.event_id == event_id && x.route.target_actor == target)) [
            | inl same ↦
                let step : find_from routes event_id target (suc n) i ≡ some x =
                  rw (found, find_from, same) refl in
                let it : some x ≡ some entry = sym step ∙ e in
                let this : x ≡ entry = cc it in
                let fits : (x.route.event_id ≡ event_id) × (x.route.target_actor ≡ target) =
                  (ground arith, ground arith) in
                subst
                  (λ (y : ActiveRoute).
                    (y.route.event_id ≡ event_id) × (y.route.target_actor ≡ target))
                  this fits
            | inr other ↦
                let step : find_from routes event_id target (suc n) i
                    ≡ find_from routes event_id target n (suc i) =
                  rw (found, find_from, other) refl in
                find_from_sound routes event_id target n (suc i) entry (sym step ∙ e)
          ]
    ]

module _ {S : Type 0} where
  send_over-Balanced :
      (target : ℕ) (m : Msg S) (route : Option ActiveRoute) (st : Stats) (g : Graph S)
      → Balanced st
      → Balanced
          (send_over target m route (record st { sends_attempted = inc32 st.sends_attempted }) g).1
  unfolding send_over
  send_over-Balanced target m none st g b = count_sent-Balanced _ st b
  send_over-Balanced target m (some entry) st g b =
      elim (Bool-cases (is_optional_disabled entry.state)) [
        | inl disabled ↦ rw disabled (omega (arith, b))
        | inr live ↦ elim (Bool-cases (is_enabled entry.state)) [
          | inl enabled ↦ rw (live, enabled) (count_sent-Balanced _ st b)
          | inr refused ↦ rw (live, refused) (omega (arith, b))
        ]
      ]

  -- A send through a port, whatever its outcome, keeps the counts of the port in balance, modulo
  -- their width: each attempt was sent, skipped over a disabled route, or failed.
  pub send-Balanced :
      (target : ℕ) (m : Msg S) (port : Port) (g : Graph S)
      → Balanced port.stats
      → Balanced (PublishPort.send target m port g).1.stats
  unfolding PublishPort.send
  send-Balanced target m port g b = elim (Bool-cases (actor_id_is_valid target)) [
    | inr invalid ↦ rw (invalid, PublishPort.send) b
    | inl valid ↦
        rw (valid, PublishPort.send)
          (send_over-Balanced target m (find_route g.active_routes m.event_id target) port.stats g
            b)
  ]

  send_over_kept :
      (target : ℕ) (m : Msg S) (entry : ActiveRoute) (st : Stats) (g : Graph S)
      → is_enabled entry.state ≡ false
      → (send_over target m (some entry) st g).2.registry ≡ g.registry
  unfolding send_over count_metric
  send_over_kept target m entry st g refused =
      elim (Bool-cases (is_optional_disabled entry.state)) [
        | inl disabled ↦ rw disabled refl
        | inr live ↦ rw (live, refused) refl
      ]

  -- The route that decides on a send is one of its event and its target; where it is not enabled,
  -- nothing is delivered.
  pub send_kept :
      (target : ℕ) (m : Msg S) (port : Port) (g : Graph S) (entry : ActiveRoute)
      → find_route g.active_routes m.event_id target ≡ some entry
      → is_enabled entry.state ≡ false
      → ((entry.route.event_id ≡ m.event_id) × (entry.route.target_actor ≡ target))
        × ((PublishPort.send target m port g).2.registry ≡ g.registry)
  unfolding PublishPort.send find_route
  send_kept target m port g entry found refused =
      let span = ActiveRoutes.span_for_event g.active_routes m.event_id in
      (
        find_from_sound g.active_routes m.event_id target span.count span.start_index entry found,
        elim (Bool-cases (actor_id_is_valid target)) [
          | inr invalid ↦ rw (invalid, PublishPort.send) refl
          | inl valid ↦
              rw (valid, PublishPort.send, found) (send_over_kept target m entry _ g refused)
        ],
      )
