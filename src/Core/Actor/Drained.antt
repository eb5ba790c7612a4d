-- ===== src/Core/Actor/Drained.antt =====
-- What one pump of an actor does: with any handlers its bounds and its report, and with handlers
-- that act on the owner of the payloads only the messages it serves, in order.
use esp8266_event_driven_fra.Prelude.{
  ℕ, zero, suc, ◌≤◌, ◌<◌, ◌≡◌, ◌≢◌, ◌↔◌, refl, sym, ap, ◌∙◌, inl, inr, true, false, Option, none,
  some, arith, get_or-set-some, ◌==◌, Bool-cases, Option-cases, ==_iff,
}
use esp8266_event_driven_fra.Core.Result.{Result, ok, is_ok, err_empty}
use esp8266_event_driven_fra.Core.Actor.State.{
  RuntimeStats, ActorRuntime, System, runtime_at, put_runtime, restat, pending,
}
use esp8266_event_driven_fra.Core.Actor.Pump.{
  Handler, process_one, pump_loop, finish_pump, pump, pending_at, begin_pump,
}

module _ {S : Type 0} where
  pub restat-put_runtime :
      (sys : System S) (i : ℕ) (f : RuntimeStats → RuntimeStats) (rt : ActorRuntime S)
      → runtime_at sys i ≡ some rt
      → restat sys i f ≡ put_runtime sys i (record rt { stats = f rt.stats })
  unfolding restat
  restat-put_runtime sys i f rt e = rw (e, restat) refl

  pub restat-runtime_at :
      (sys : System S) (i : ℕ) (f : RuntimeStats → RuntimeStats) (rt : ActorRuntime S)
      → runtime_at sys i ≡ some rt
      → runtime_at (restat sys i f) i ≡ some (record rt { stats = f rt.stats })
  unfolding restat
  restat-runtime_at sys i f rt e = rw (e, restat) (get_or-set-some sys.slots i _ rt e)

  pub pending_at_bound :
      (sys : System S) (i : ℕ) (rt : ActorRuntime S)
      → runtime_at sys i ≡ some rt
      → pending_at sys i ≡ pending rt
  pending_at_bound sys i rt e =
      let pending_in : Option (ActorRuntime S) → ℕ =
        λ o. elim o [ none ↦ 0 | some r ↦ pending r ] in
      ap pending_in e

  pub restat-pending_at :
      (sys : System S) (i : ℕ) (f : RuntimeStats → RuntimeStats)
      → pending_at (restat sys i f) i ≡ pending_at sys i
  unfolding restat
  restat-pending_at sys i f = elim (Option-cases (runtime_at sys i)) [
    | inl free ↦ rw (free, restat) refl
    | inr (rt, e) ↦
        pending_at_bound (restat sys i f) i _ (restat-runtime_at sys i f rt e)
        ∙ sym (pending_at_bound sys i rt e)
  ]

  finish_pump-bounds :
      (i budget before : ℕ) (rc : Result) (k : ℕ) (sys : System S)
      → k ≤ budget
      → (rc ≡ ok → k < budget → pending_at sys i ≡ 0)
      → k ≢ 0
      → let (rc', rep, sys') = finish_pump i budget before (rc, k, sys) in
        (rep.processed ≤ budget)
        × (rep.processed ≢ 0)
        × (rep.pending_after ≡ pending_at sys' i)
        × (rc' ≡ ok
            → rep.processed < budget
            → (rep.pending_after ≡ 0) × (rep.stop_result ≡ err_empty))
        × ((rep.exhausted_budget ≡ true)
            ↔ ((rc' ≡ ok) × (rep.processed ≡ budget) × (rep.pending_after ≢ 0)))
  unfolding finish_pump
  finish_pump-bounds i budget before rc k sys below drained some_done = (
    below,
    some_done,
    sym (restat-pending_at sys i _),
    λ fine less. (drained fine less, ground arith),
    ((λ e. ground arith), (λ p. ground arith)),
  )

module _ {S : Type 0} (handler : Handler S) where
  -- The loop stays within its budget; if it ends without an error below the budget, nothing is
  -- pending; and it handles at least one message if one is pending.
  pump_loop-bounds :
      (n i : ℕ) (sys : System S)
      → let (rc, k, sys') = pump_loop handler n i sys in
        (k ≤ n) × (rc ≡ ok → k < n → pending_at sys' i ≡ 0) × (n ≢ 0 → pending_at sys i ≢ 0 → k ≢ 0)
  unfolding pump_loop
  pump_loop-bounds zero i sys = (omega arith, λ _ h. absurd (omega arith), λ h. absurd (h refl))
  pump_loop-bounds (suc n) i sys = elim (Bool-cases (pending_at sys i == 0)) [
    | inl idle ↦
        rw (idle, pump_loop)
          (omega arith, λ _ _. (==_iff _ _).0 idle, λ _ h. absurd (h ((==_iff _ _).0 idle)))
    | inr busy ↦
        let (rc, sys₁) = process_one handler i sys in
        let (below, drained, _) = pump_loop-bounds n i sys₁ in
        elim (Bool-cases (is_ok rc)) [
          | inr bad ↦
              rw (busy, pump_loop, bad)
                (omega arith, λ e. absurd (ground arith), λ _ _. omega arith)
          | inl fine ↦
              rw (busy, pump_loop, fine)
                (omega (arith, below), λ e h. drained e (omega arith), λ _ _. omega arith)
        ]
  ]

  -- A pump with a budget of an actor that has messages processes at least one and at most its
  -- budget of them, and reports what is pending after it. It stops below the budget without an
  -- error only when nothing is pending, which it reports as empty; and it reports an exhausted
  -- budget exactly when it ends without an error, at the budget, with a message pending.
  pub pump_lem :
      (i budget : ℕ) (sys : System S)
      → budget ≢ 0
      → pending_at sys i ≢ 0
      → let (rc, rep, sys') = pump handler i budget sys in
        (rep.processed ≤ budget)
        × (rep.processed ≢ 0)
        × (rep.pending_after ≡ pending_at sys' i)
        × (rc ≡ ok
            → rep.processed < budget
            → (rep.pending_after ≡ 0) × (rep.stop_result ≡ err_empty))
        × ((rep.exhausted_budget ≡ true)
            ↔ ((rc ≡ ok) × (rep.processed ≡ budget) × (rep.pending_after ≢ 0)))
  unfolding pump finish_pump
  pump_lem i budget sys funded busy = elim (Option-cases (runtime_at sys i)) [
    | inl free ↦ absurd (busy (rw (free, pending_at) refl))
    | inr (rt, e) ↦
        let sys₁ = restat sys i (begin_pump budget) in
        let same = restat-pending_at sys i (begin_pump budget) in
        let (rc, k, sys₂) = pump_loop handler budget i sys₁ in
        let (below, drained, some_done) = pump_loop-bounds budget i sys₁ in
        let waiting : pending rt ≢ 0 = λ z. busy (rw (e, pending_at) z) in
        let u : (budget == 0) ≡ false = ground arith in
        let w : (pending rt == 0) ≡ false = ground arith in
        rw (e, pump, u, w)
          (finish_pump-bounds i budget (pending rt) rc k sys₂ below drained
            (some_done funded (λ z. busy (sym same ∙ z))))
  ]
