-- ===== src/Core/Actor/Deliver.antt =====
-- Delivery into the mailbox of an actor: the two delivery callbacks of core/src/ev_actor_runtime.c.
use esp8266_event_driven_fra.Prelude.{ℕ, Bool, true, false, ◌&&◌, none, some, if◌then◌else◌, inc32}
use esp8266_event_driven_fra.Core.Result.{Result, is_ok, err_not_found}
use esp8266_event_driven_fra.Core.Route.{Qos, qos_critical}
use esp8266_event_driven_fra.Core.Msg.{Msg}
use esp8266_event_driven_fra.Core.Mailbox
use esp8266_event_driven_fra.Core.Mailbox.{Effect, Report, Mailbox, report}
use esp8266_event_driven_fra.Core.Actor.State.{
  RuntimeStats, ActorRuntime, RegistryStats, System, put_runtime, record_pending_high_watermark,
  find,
}

abbrev pub is_dropped : Effect → Bool
is_dropped Effect.dropped = true
is_dropped _ = false

abbrev pub count_attempt : ℕ → RegistryStats → RegistryStats
count_attempt target st = record st {
  delivery_attempted = inc32 st.delivery_attempted;
  last_target_actor = target;
}

abbrev pub count_missing : RegistryStats → RegistryStats
count_missing st = record st {
  delivery_failed = inc32 st.delivery_failed;
  delivery_target_missing = inc32 st.delivery_target_missing;
  last_result = err_not_found;
}

-- What a delivery to a bound actor adds to the counters of the registry: whether the message was
-- queued, and the result.
abbrev pub count_outcome : Bool → Result → RegistryStats → RegistryStats
count_outcome true rc st = record st {
  delivery_succeeded = inc32 st.delivery_succeeded;
  last_result = rc;
}
count_outcome false rc st = record st {
  delivery_failed = inc32 st.delivery_failed;
  last_result = rc;
}

abbrev pub count_enqueue : Bool → Result → RuntimeStats → RuntimeStats
count_enqueue true rc st = record st { enqueued = inc32 st.enqueued; last_result = rc }
count_enqueue false rc st = record st { enqueue_failed = inc32 st.enqueue_failed; last_result = rc }

module _ {S : Type 0} where
  -- What follows the push into the mailbox of the target: `reported` says whether the caller gave a
  -- report, without which a dropped message counts as delivered.
  unfoldable pub settle : ℕ → Bool → ActorRuntime S → System S → Result → Report → System S
  settle target reported rt sys rc rep =
      let queued =
        is_ok rc && (if reported then (if is_dropped rep.effect then false else true) else true) in
      let rt' : ActorRuntime S = record rt { stats = count_enqueue queued rc rt.stats } in
      put_runtime (record sys { stats = count_outcome queued rc sys.stats }) target
        (if is_ok rc then record_pending_high_watermark rt' else rt')

  -- `ev_actor_registry_delivery_impl`. The report is filled where the caller gave one.
  unfoldable pub delivery_impl : ℕ → Msg S → Qos → Bool → System S → Result × System S × Report
  unfolding settle
  delivery_impl target m qos reported sys =
      let sys₁ : System S = record sys { stats = count_attempt target sys.stats } in
      elim (find sys target) [
        | none ↦ (
          err_not_found,
          record sys₁ { stats = count_missing sys₁.stats },
          report Effect.rejected err_not_found 0 0 none,
        )
        | some rt ↦
            let (rc, mb, owner, rep) = Mailbox.push_qos rt.mailbox m qos sys.owner in
            (
              rc,
              settle target reported (record rt { mailbox = mb }) (record sys₁ { owner = owner }) rc
                  rep,
              rep,
            )
      ]

  -- `ev_actor_registry_delivery_qos`, called with a report.
  unfoldable pub delivery_qos : ℕ → Msg S → Qos → System S → Result × System S × Report
  unfolding delivery_impl
  delivery_qos target m qos sys = delivery_impl target m qos true sys

  -- `ev_actor_registry_delivery`
  unfoldable pub delivery : ℕ → Msg S → System S → Result × System S
  unfolding delivery_impl
  delivery target m sys =
      let (rc, sys', _) = delivery_impl target m qos_critical false sys in (rc, sys')
