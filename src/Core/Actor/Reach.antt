-- ===== src/Core/Actor/Reach.antt =====
-- The systems that the operations of core/src/ev_actor_runtime.c can build.
use esp8266_event_driven_fra.Prelude.{
  ℕ, zero, suc, ◌+◌, ◌≡◌, ◌≢◌, refl, sym, subst, inl, inr, true, false, Option, none, some, arith,
  ◌==◌, AllFrom-of_get, get_elem?, replicate, Bool-cases, Option-cases, is_none,
}
use esp8266_event_driven_fra.Core.Result.{ok, is_ok}
use esp8266_event_driven_fra.Core.Catalog.{
  actor_id_is_valid, actor_meta, actor_count, default_drain_budget,
}
use esp8266_event_driven_fra.Core.Route.{Qos, qos_critical}
use esp8266_event_driven_fra.Core.Msg.{Msg, zero_msg}
use esp8266_event_driven_fra.Core.Mailbox
use esp8266_event_driven_fra.Core.Mailbox.{Mailbox}
use esp8266_event_driven_fra.Core.Mailbox.Ring
use esp8266_event_driven_fra.Core.Mailbox.Pop.{pop_refines}
use esp8266_event_driven_fra.Core.Actor.State.{
  ActorRuntime, System, runtime_at, runtime_init, registry_init, registry_reset_stats, bind,
  pending, fresh_runtime_stats,
}
use esp8266_event_driven_fra.Core.Actor.Deliver.{delivery, delivery_qos}
use esp8266_event_driven_fra.Core.Actor.Pump.{
  Handler, handle, process_one, step, pump_loop, finish_pump, pump, pending_at, begin_pump,
  count_empty,
}
use esp8266_event_driven_fra.Core.Actor.Wired.{
  SlotIsValid, RuntimeIsValid, IsWired, runtime_at-RuntimeIsValid, refill-RuntimeIsValid,
  put_runtime-IsWired, restat-IsWired, reown-IsWired, delivery_impl-IsWired,
}

module _ {S : Type 0} where
  -- A handler that leaves a well-wired system well wired.
  abbrev pub KeepsWired : Handler S → Type 0
  KeepsWired handler =
      (i : ℕ) (m : Msg S) (sys : System S) → IsWired sys → IsWired (handler i m sys).1

module _ {S : Type 0} (handler : Handler S) (keeps : KeepsWired handler) where
  handle-IsWired :
      (i : ℕ) (m : Msg S) (sys : System S) → IsWired sys → IsWired (handle handler i m sys).1
  unfolding handle
  handle-IsWired i m sys w = restat-IsWired _ i _ (reown-IsWired _ _ (keeps i m sys w))

  pub process_one-IsWired :
      (i : ℕ) (sys : System S) → IsWired sys → IsWired (process_one handler i sys).1
  unfolding process_one
  process_one-IsWired i sys w = elim (Option-cases (runtime_at sys i)) [
    | inl free ↦ rw (free, process_one) w
    | inr (rt, e) ↦
        let v = runtime_at-RuntimeIsValid sys i rt w e in
        let (rc, out, mb) = Mailbox.pop rt.mailbox in
        let popped =
          put_runtime-IsWired sys i _ w
            (refill-RuntimeIsValid i rt mb rt.stats v (pop_refines rt.mailbox v.box).1) in
        elim (Bool-cases (is_ok rc)) [
          | inr bad ↦
              rw (e, process_one, bad)
                (put_runtime-IsWired sys i _ w (refill-RuntimeIsValid i rt rt.mailbox _ v v.box))
          | inl fine ↦ elim (Option-cases out) [
            | inl nothing ↦ rw (e, process_one, fine, nothing) (handle-IsWired i zero_msg _ popped)
            | inr (m, taken) ↦ rw (e, process_one, fine, taken) (handle-IsWired i m _ popped)
          ]
        ]
  ]

  pub step-IsWired : (i : ℕ) (sys : System S) → IsWired sys → IsWired (step handler i sys).1
  unfolding step
  step-IsWired i sys w = elim (Option-cases (runtime_at sys i)) [
    | inl free ↦ rw (free, step) w
    | inr (rt, e) ↦
        let v = runtime_at-RuntimeIsValid sys i rt w e in
        elim (Bool-cases (Mailbox.is_empty rt.mailbox)) [
          | inl idle ↦
              rw (e, step, idle)
                (put_runtime-IsWired sys i _ w (refill-RuntimeIsValid i rt rt.mailbox _ v v.box))
          | inr busy ↦ rw (e, step, busy) (process_one-IsWired i sys w)
        ]
  ]

  pump_loop-IsWired :
      (n i : ℕ) (sys : System S) → IsWired sys → IsWired (pump_loop handler n i sys).2
  unfolding pump_loop
  pump_loop-IsWired zero i sys w = w
  pump_loop-IsWired (suc n) i sys w = elim (Bool-cases (pending_at sys i == 0)) [
    | inl idle ↦ rw (idle, pump_loop) w
    | inr busy ↦
        let w₁ = process_one-IsWired i sys w in
        elim (Bool-cases (is_ok (process_one handler i sys).0)) [
          | inl fine ↦ rw (busy, pump_loop, fine) (pump_loop-IsWired n i _ w₁)
          | inr bad ↦ rw (busy, pump_loop, bad) w₁
        ]
  ]

  -- Pumping an actor, with handlers that keep a system well wired, keeps it so.
  pub pump-IsWired :
      (i budget : ℕ) (sys : System S) → IsWired sys → IsWired (pump handler i budget sys).2
  unfolding pump finish_pump
  pump-IsWired i budget sys w =
      let begun = restat-IsWired sys i (begin_pump budget) w in
      elim (Option-cases (runtime_at sys i)) [
        | inl free ↦ rw (free, pump) w
        | inr (rt, e) ↦ elim (Bool-cases (budget == 0)) [
          | inl unfunded ↦ rw (e, pump, unfunded) w
          | inr funded ↦ elim (Bool-cases (pending rt == 0)) [
            | inl idle ↦ rw (e, pump, funded, idle) (restat-IsWired _ i count_empty begun)
            | inr busy ↦
                rw (e, pump, funded, busy)
                  (restat-IsWired _ i _ (pump_loop-IsWired budget i _ begun))
          ]
        ]
      ]

module _ {S : Type 0} where
  bind-IsWired :
      (sys : System S) (rt : ActorRuntime S)
      → IsWired sys
      → RuntimeIsValid rt.actor_id rt
      → IsWired (bind sys rt).1
  unfolding bind
  bind-IsWired sys rt w v = elim (Bool-cases (actor_id_is_valid rt.actor_id)) [
    | inr invalid ↦ rw (invalid, bind) w
    | inl valid ↦ elim (Bool-cases (is_none (runtime_at sys rt.actor_id))) [
      | inr taken ↦ rw (valid, bind, taken) w
      | inl free ↦ rw (valid, bind, free) (put_runtime-IsWired sys rt.actor_id rt w v)
    ]
  ]

  runtime_init-RuntimeIsValid :
      (id : ℕ) (mb : Mailbox S) (rt : ActorRuntime S)
      → Ring.IsValid mb
      → runtime_init id mb ≡ (ok, some rt)
      → RuntimeIsValid rt.actor_id rt
  unfolding runtime_init default_drain_budget
  runtime_init-RuntimeIsValid id mb rt v e = elim (Option-cases (actor_meta id)) [
    | inl unknown ↦ absurd (ground arith)
    | inr (m, known) ↦
        let made : ActorRuntime S = record {
          actor_id = id;
          mailbox = mb;
          stats = fresh_runtime_stats;
        } in
        let (same, funded) : (rt ≡ made) × (m.drain_budget ≢ 0) = ground arith in
        subst (λ r. RuntimeIsValid r.actor_id r) (sym same)
          (record { own = refl; box = v; budgeted = rw (known, default_drain_budget) funded })
  ]

  replicate-none-SlotIsValid :
      (n k j : ℕ) (x : Option (ActorRuntime S))
      → get_elem? (replicate n none) k ≡ some x
      → SlotIsValid j x
  replicate-none-SlotIsValid zero k j x e = absurd (cc e)
  replicate-none-SlotIsValid (suc n) zero j x e =
      let q : none ≡ x = cc e in subst (SlotIsValid j) q tt
  replicate-none-SlotIsValid (suc n) (suc k) j x e = replicate-none-SlotIsValid n k j x e

  registry_init-IsWired : (owner : S) → IsWired (registry_init owner).1
  unfolding registry_init actor_count
  registry_init-IsWired owner = record {
    balanced = refl;
    slots =
        AllFrom-of_get SlotIsValid 0 (replicate actor_count none)
          (λ k x e. replicate-none-SlotIsValid actor_count k (0 + k) x e);
  }

module _ {S : Type 0} (handler : Handler S) where
  -- What the operations build from a fresh registry: actors bound with a well-formed mailbox,
  -- deliveries to any actor of any message, and actors pumped, in any order.
  pub data Reached : System S → Type 0 where
    start : (owner : S) → Reached (registry_init owner).1
    bound :
        {sys : System S} (id : ℕ) (mb : Mailbox S) (rt : ActorRuntime S)
        → Reached sys
        → Ring.IsValid mb
        → runtime_init id mb ≡ (ok, some rt)
        → Reached (bind sys rt).1
    delivered :
        {sys : System S} (target : ℕ) (m : Msg S) → Reached sys → Reached (delivery target m sys).1
    delivered_qos :
        {sys : System S} (target : ℕ) (m : Msg S) (q : Qos)
        → Reached sys
        → Reached (delivery_qos target m q sys).1
    pumped : {sys : System S} (i budget : ℕ) → Reached sys → Reached (pump handler i budget sys).2
    stepped : {sys : System S} (i : ℕ) → Reached sys → Reached (step handler i sys).1
    recounted : {sys : System S} → Reached sys → Reached (registry_reset_stats sys).1

  -- Whatever the operations do from a fresh registry, with handlers that keep a system well wired,
  -- the system stays well wired: each runtime stands in the slot of its actor with a well-formed
  -- mailbox and a drain budget, and each attempted delivery is counted once, as succeeded or failed.
  pub Reached-IsWired : KeepsWired handler → (sys : System S) → Reached sys → IsWired sys
  unfolding delivery delivery_qos registry_reset_stats
  Reached-IsWired keeps _ (start owner) = registry_init-IsWired owner
  Reached-IsWired keeps _ (bound {sys} id mb rt r v made) =
      bind-IsWired sys rt (Reached-IsWired keeps sys r)
        (runtime_init-RuntimeIsValid id mb rt v made)
  Reached-IsWired keeps _ (delivered {sys} target m r) =
      delivery_impl-IsWired target m qos_critical false sys (Reached-IsWired keeps sys r)
  Reached-IsWired keeps _ (delivered_qos {sys} target m q r) =
      delivery_impl-IsWired target m q true sys (Reached-IsWired keeps sys r)
  Reached-IsWired keeps _ (pumped {sys} i budget r) =
      pump-IsWired handler keeps i budget sys (Reached-IsWired keeps sys r)
  Reached-IsWired keeps _ (stepped {sys} i r) =
      step-IsWired handler keeps i sys (Reached-IsWired keeps sys r)
  Reached-IsWired keeps _ (recounted {sys} r) = record {
    balanced = refl;
    slots = (Reached-IsWired keeps sys r).slots;
  }
