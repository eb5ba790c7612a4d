-- ===== src/Core/Actor/Delivery.antt =====
-- Delivery to an actor by the callback without report, `ev_actor_registry_delivery`.
use esp8266_event_driven_fra.Prelude.{
  ℕ, ◌≡◌, ◌≢◌, refl, sym, ap, ◌∙◌, inl, inr, Bool, true, false, ◌&&◌, none, some, if◌then◌else◌,
  get_or-set-some, get_or-set_ne, Bool-cases, Option-cases, ltb,
}
use esp8266_event_driven_fra.Core.Result.{is_ok, err_not_found}
use esp8266_event_driven_fra.Core.Route.{qos_critical}
use esp8266_event_driven_fra.Core.Msg.{Msg}
use esp8266_event_driven_fra.Core.Mailbox
use esp8266_event_driven_fra.Core.Mailbox.{Mailbox, Report}
use esp8266_event_driven_fra.Core.Mailbox.Kept.{push_qos_critical}
use esp8266_event_driven_fra.Core.Actor.State.{
  ActorRuntime, System, runtime_at, find, record_pending_high_watermark, pending,
}
use esp8266_event_driven_fra.Core.Actor.Deliver.{delivery, delivery_impl, settle, count_enqueue}
use esp8266_event_driven_fra.Core.Actor.Wired.{find-runtime_at}

module _ {S : Type 0} where
  high_watermark-mailbox :
      (b : Bool) (rt : ActorRuntime S)
      → (if b then record_pending_high_watermark rt else rt).mailbox ≡ rt.mailbox
  unfolding record_pending_high_watermark
  high_watermark-mailbox false rt = refl
  high_watermark-mailbox true rt =
      elim (Bool-cases (ltb rt.stats.pending_high_watermark (pending rt))) [
        | inl more ↦ rw more refl
        | inr less ↦ rw less refl
      ]

  -- A delivery to an actor that is not bound, or does not exist, answers that it is not found and
  -- changes neither a runtime nor the owner of a payload. One to a bound actor answers as a push
  -- into its mailbox does and does to that mailbox and to the owner what the push does. No delivery
  -- changes another slot of the registry.
  pub delivery-push :
      (target : ℕ) (m : Msg S) (sys : System S)
      → let (rc, sys') = delivery target m sys in
        (find sys target ≡ none
          → (rc ≡ err_not_found) × (sys'.slots ≡ sys.slots) × (sys'.owner ≡ sys.owner))
        × ((rt : ActorRuntime S)
            → find sys target ≡ some rt
            → (rt' : ActorRuntime S) × (runtime_at sys' target ≡ some rt')
              × ((rc, rt'.mailbox, sys'.owner) ≡ Mailbox.push rt.mailbox m sys.owner))
        × ((j : ℕ) → j ≢ target → runtime_at sys' j ≡ runtime_at sys j)
  unfolding delivery delivery_impl settle
  delivery-push target m sys = (
    λ missing. rw (missing, delivery_impl) (refl, refl, refl),
    λ rt e.
        let (rc, mb, s, rep) = Mailbox.push_qos rt.mailbox m qos_critical sys.owner in
        let rt₁ : ActorRuntime S = record rt {
          mailbox = mb;
          stats = count_enqueue (is_ok rc && true) rc rt.stats;
        } in
        rw (e, delivery_impl)
          (
            if is_ok rc then record_pending_high_watermark rt₁ else rt₁,
            get_or-set-some sys.slots target _ rt (find-runtime_at sys target rt e),
            ap (λ x. (rc, x, s)) (high_watermark-mailbox (is_ok rc) rt₁)
                ∙ push_qos_critical rt.mailbox m sys.owner,
          ),
    λ j other. elim (Option-cases (find sys target)) [
      | inl missing ↦ rw (missing, delivery_impl) refl
      | inr (rt, e) ↦
          rw (e, delivery_impl) (get_or-set_ne sys.slots target j _ none (λ q. other (sym q)))
    ],
  )
