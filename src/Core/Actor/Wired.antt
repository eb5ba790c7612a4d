-- ===== src/Core/Actor/Wired.antt =====
-- A system is well wired when each runtime stands in the slot of its actor with a well-formed
-- mailbox and a drain budget, and each delivery was counted once. Every operation keeps it so.
use esp8266_event_driven_fra.Prelude.{
  ℕ, zero, suc, ◌+◌, ◌%◌, ◌≡◌, ◌≢◌, ap, subst, inl, inr, Bool, true, false, ◌&&◌, if◌then◌else◌,
  Option, none, some, List, [], ◌∷◌, arith, get_or, get_elem?, AllFrom, AllFrom-get, AllFrom-set,
  u32_mod, Bool-cases, Option-cases, ltb,
}
use esp8266_event_driven_fra.Core.Result.{Result, is_ok}
use esp8266_event_driven_fra.Core.Catalog.{actor_id_is_valid, default_drain_budget}
use esp8266_event_driven_fra.Core.Route.{Qos}
use esp8266_event_driven_fra.Core.Msg.{Msg}
use esp8266_event_driven_fra.Core.Mailbox
use esp8266_event_driven_fra.Core.Mailbox.{Mailbox, Report}
use esp8266_event_driven_fra.Core.Mailbox.Ring
use esp8266_event_driven_fra.Core.Mailbox.Kept.{push_qos-IsValid}
use esp8266_event_driven_fra.Core.Actor.State.{
  RuntimeStats, ActorRuntime, RegistryStats, System, runtime_at, put_runtime, restat, find,
  record_pending_high_watermark, pending,
}
use esp8266_event_driven_fra.Core.Actor.Deliver.{
  delivery_impl, settle, is_dropped, count_attempt, count_missing, count_outcome, count_enqueue,
}

-- Each attempt succeeded or failed; the counters are words.
abbrev pub Balanced : RegistryStats → Type 0
Balanced st = st.delivery_attempted ≡ (st.delivery_succeeded + st.delivery_failed) % u32_mod

count_outcome-Balanced :
    (target : ℕ) (queued : Bool) (rc : Result) (st : RegistryStats)
    → Balanced st
    → Balanced (count_outcome queued rc (count_attempt target st))
count_outcome-Balanced target true rc st b = omega (arith, b)
count_outcome-Balanced target false rc st b = omega (arith, b)

count_missing-Balanced :
    (target : ℕ) (st : RegistryStats)
    → Balanced st
    → Balanced (count_missing (count_attempt target st))
count_missing-Balanced target st b = omega (arith, b)

module _ {S : Type 0} where
  pub record RuntimeIsValid (i : ℕ) (rt : ActorRuntime S) : Type 0 where
    pub own : rt.actor_id ≡ i
    pub box : Ring.IsValid rt.mailbox
    pub budgeted : default_drain_budget i ≢ 0

  abbrev pub SlotIsValid : ℕ → Option (ActorRuntime S) → Type 0
  SlotIsValid i none = Unit
  SlotIsValid i (some rt) = RuntimeIsValid i rt

  pub record IsWired (sys : System S) : Type 0 where
    pub balanced : Balanced sys.stats
    pub slots : AllFrom SlotIsValid 0 sys.slots

  slot-get :
      (xs : List (Option (ActorRuntime S))) (i : ℕ) (rt : ActorRuntime S)
      → get_or xs i none ≡ some rt
      → get_elem? xs i ≡ some (some rt)
  slot-get [] i rt h = absurd (cc h)
  slot-get (x ∷ xs) zero rt h = ap some h
  slot-get (x ∷ xs) (suc i) rt h = slot-get xs i rt h

  pub runtime_at-RuntimeIsValid :
      (sys : System S) (i : ℕ) (rt : ActorRuntime S)
      → IsWired sys
      → runtime_at sys i ≡ some rt
      → RuntimeIsValid i rt
  runtime_at-RuntimeIsValid sys i rt w e =
      subst (λ j. RuntimeIsValid j rt) (omega arith)
        (AllFrom-get SlotIsValid 0 i sys.slots (some rt) w.slots (slot-get sys.slots i rt e))

  -- The same runtime with a mailbox and counters of its own.
  pub refill-RuntimeIsValid :
      (i : ℕ) (rt : ActorRuntime S) (mb : Mailbox S) (st : RuntimeStats)
      → RuntimeIsValid i rt
      → Ring.IsValid mb
      → RuntimeIsValid i (record rt { mailbox = mb; stats = st })
  refill-RuntimeIsValid i rt mb st v box = record { own = v.own; box = box; budgeted = v.budgeted }

  pub put_runtime-IsWired :
      (sys : System S) (i : ℕ) (rt : ActorRuntime S)
      → IsWired sys
      → RuntimeIsValid i rt
      → IsWired (put_runtime sys i rt)
  put_runtime-IsWired sys i rt w v = record {
    balanced = w.balanced;
    slots =
        AllFrom-set SlotIsValid 0 i sys.slots (some rt) w.slots
          (subst (λ j. RuntimeIsValid j rt) (omega arith) v);
  }

  pub restat-IsWired :
      (sys : System S) (i : ℕ) (f : RuntimeStats → RuntimeStats)
      → IsWired sys
      → IsWired (restat sys i f)
  unfolding restat
  restat-IsWired sys i f w = elim (Option-cases (runtime_at sys i)) [
    | inl free ↦ rw (free, restat) w
    | inr (rt, e) ↦
        let v = runtime_at-RuntimeIsValid sys i rt w e in
        rw (e, restat)
          (put_runtime-IsWired sys i _ w
            (refill-RuntimeIsValid i rt rt.mailbox (f rt.stats) v v.box))
  ]

  pub reown-IsWired : (sys : System S) (s : S) → IsWired sys → IsWired (record sys { owner = s })
  reown-IsWired sys s w = record { balanced = w.balanced; slots = w.slots }

  high_watermark-RuntimeIsValid :
      (i : ℕ) (rt : ActorRuntime S)
      → RuntimeIsValid i rt
      → RuntimeIsValid i (record_pending_high_watermark rt)
  unfolding record_pending_high_watermark
  high_watermark-RuntimeIsValid i rt v =
      elim (Bool-cases (ltb rt.stats.pending_high_watermark (pending rt))) [
        | inl more ↦ rw more (refill-RuntimeIsValid i rt rt.mailbox _ v v.box)
        | inr less ↦ rw less v
      ]

  place-IsWired :
      (sys : System S) (i : ℕ) (rt : ActorRuntime S) (st : RegistryStats) (s : S)
      → IsWired sys
      → Balanced st
      → RuntimeIsValid i rt
      → IsWired (put_runtime (record { slots = sys.slots; stats = st; owner = s }) i rt)
  place-IsWired sys i rt st s w b v = record {
    balanced = b;
    slots = (put_runtime-IsWired sys i rt w v).slots;
  }

  if-RuntimeIsValid :
      (i : ℕ) (b : Bool) (x y : ActorRuntime S)
      → RuntimeIsValid i x
      → RuntimeIsValid i y
      → RuntimeIsValid i (if b then x else y)
  if-RuntimeIsValid i true x y v w = v
  if-RuntimeIsValid i false x y v w = w

  settle-IsWired :
      (target : ℕ) (reported : Bool) (rt : ActorRuntime S) (sys : System S) (rc : Result)
      (rep : Report)
      → IsWired sys
      → RuntimeIsValid target rt
      → (s : S)
      → IsWired (
          settle target reported rt
            (record sys { stats = count_attempt target sys.stats; owner = s })
            rc
            rep)
  unfolding settle
  settle-IsWired target reported rt sys rc rep w v s =
      let queued =
        is_ok rc && (if reported then (if is_dropped rep.effect then false else true) else true) in
      let b = count_outcome-Balanced target queued rc sys.stats w.balanced in
      let v' =
        refill-RuntimeIsValid target rt rt.mailbox (count_enqueue queued rc rt.stats) v v.box in
      place-IsWired sys target _ _ s w b
        (if-RuntimeIsValid target (is_ok rc) _ _ (high_watermark-RuntimeIsValid target _ v') v')

  pub find-runtime_at :
      (sys : System S) (i : ℕ) (rt : ActorRuntime S)
      → find sys i ≡ some rt
      → runtime_at sys i ≡ some rt
  unfolding find
  find-runtime_at sys i rt e = elim (Bool-cases (actor_id_is_valid i)) [
    | inl valid ↦ ground arith
    | inr invalid ↦ absurd (ground arith)
  ]

  -- A delivery, of any quality of service and with or without a report, keeps a system well wired.
  pub delivery_impl-IsWired :
      (target : ℕ) (m : Msg S) (q : Qos) (reported : Bool) (sys : System S)
      → IsWired sys
      → IsWired (delivery_impl target m q reported sys).1
  unfolding delivery_impl
  delivery_impl-IsWired target m q reported sys w = elim (Option-cases (find sys target)) [
    | inl missing ↦
        rw (missing, delivery_impl)
          (record {
            balanced = count_missing-Balanced target sys.stats w.balanced;
            slots = w.slots;
          })
    | inr (rt, e) ↦
        let v = runtime_at-RuntimeIsValid sys target rt w (find-runtime_at sys target rt e) in
        let (rc, mb, s, rep) = Mailbox.push_qos rt.mailbox m q sys.owner in
        rw (e, delivery_impl)
          (settle-IsWired target reported (record rt { mailbox = mb }) sys rc rep w
            (refill-RuntimeIsValid target rt mb rt.stats v
              (push_qos-IsValid rt.mailbox m q sys.owner v.box))
            s)
  ]
