-- ===== src/Runtime/Power/Reach.antt =====
-- The runs of the power state machine: a device sleeps only after every step before the sleep.
use esp8266_event_driven_fra.Prelude.{
  ◌≡◌, ◌≢◌, refl, sym, ap, ◌∙◌, ◌⊎◌, inl, inr, Option, some, List, [], ◌∷◌, ◌++◌, arith,
  Option-cases,
}
use esp8266_event_driven_fra.Core.Result.{ok, err_state}
use esp8266_event_driven_fra.Runtime.Power.Steps.{
  State, active, sleep_requested, draining_runtime, log_flushing, ports_prepare_sleep,
  rtc_state_saved, entering_deep_sleep, wake_boot, rejected, failed, Action, request_sleep,
  drain_complete, log_flush_complete, ports_prepared, save_rtc_state, deep_sleep_entered, Input,
  Machine, transition, init, step,
}

-- The machines that a run of steps reaches, and the actions that it took, the last one first; an
-- action that is refused is not one of them.
pub data Run : Machine → List Action → Type 0 where
  start : Run init []
  taken :
      {sm : Machine} {acts : List Action} (a : Action) (i : Option Input)
      → Run sm acts
      → (step sm a i).0 ≡ ok
      → Run (step sm a i).1 (a ∷ acts)
  refused :
      {sm : Machine} {acts : List Action} (a : Action) (i : Option Input)
      → Run sm acts
      → (step sm a i).0 ≡ err_state
      → Run (step sm a i).1 acts

-- The actions that lead to a state from the last time the machine was active, the last one first;
-- nothing is said of the states that end an attempt.
abbrev pub path : State → List Action
path active = []
path sleep_requested = request_sleep ∷ []
path draining_runtime = drain_complete ∷ request_sleep ∷ []
path log_flushing = log_flush_complete ∷ drain_complete ∷ request_sleep ∷ []
path ports_prepare_sleep = ports_prepared ∷ log_flush_complete ∷ drain_complete ∷ request_sleep ∷ []
path rtc_state_saved =
    save_rtc_state ∷ ports_prepared ∷ log_flush_complete ∷ drain_complete ∷ request_sleep ∷ []
path entering_deep_sleep =
    deep_sleep_entered ∷ save_rtc_state ∷ ports_prepared ∷ log_flush_complete ∷ drain_complete
    ∷ request_sleep ∷ []
path wake_boot = []
path rejected = []
path failed = []

-- One step: the path grows by the action, or starts again.
transition-path :
    (a : Action) (s t : State) → transition a s ≡ some t → (path t ≡ a ∷ path s) ⊎ (path t ≡ [])
unfolding transition
transition-path a s t e = ground arith

step-taken :
    (sm : Machine) (a : Action) (i : Option Input) (t : State)
    → transition a sm.state ≡ some t
    → (step sm a i).1.state ≡ t
unfolding step
step-taken sm a i t allowed = rw (allowed, step) refl

-- The same for the step that takes the action.
step-path :
    (sm : Machine) (a : Action) (i : Option Input)
    → (step sm a i).0 ≡ ok
    → (path (step sm a i).1.state ≡ a ∷ path sm.state) ⊎ (path (step sm a i).1.state ≡ [])
unfolding step
step-path sm a i e = elim (Option-cases (transition a sm.state)) [
  | inl none_allowed ↦ absurd (ground arith)
  | inr (t, allowed) ↦ rw (step-taken sm a i t allowed) (transition-path a sm.state t allowed)
]

step-state :
    (sm : Machine) (a : Action) (i : Option Input)
    → (step sm a i).0 ≡ err_state
    → (step sm a i).1.state ≡ sm.state
unfolding step
step-state sm a i e = elim (Option-cases (transition a sm.state)) [
  | inl none_allowed ↦ rw (none_allowed, step) refl
  | inr (t, allowed) ↦ absurd (ground arith)
]

-- Whatever a run of the power state machine does, the last actions it took are those that lead to
-- its state: deep sleep is entered only right after a request, a completed drain, a completed log
-- flush, prepared ports and a saved RTC state, in this order with nothing taken between them.
pub path_of_Run :
    {sm : Machine} {acts : List Action}
    → Run sm acts
    → (before : List Action) × (acts ≡ path sm.state ++ before)
unfolding init
path_of_Run start = ([], refl)
path_of_Run (taken {sm} {acts} a i run e) = elim (step-path sm a i e) [
  | inl grows ↦
      let (before, p) = path_of_Run run in
      (before, ap (λ q. a ∷ q) p ∙ ap (λ q. q ++ before) (sym grows))
  | inr restarts ↦ (a ∷ acts, ap (λ q. q ++ a ∷ acts) (sym restarts))
]
path_of_Run (refused {sm} a i run e) =
    let (before, p) = path_of_Run run in
    (before, p ∙ ap (λ s. path s ++ before) (sym (step-state sm a i e)))

transition-ne : (a : Action) (s t : State) → transition a s ≡ some t → t ≢ wake_boot
unfolding transition
transition-ne a s t e = ground arith

-- No run of the power state machine reaches the state WAKE_BOOT.
pub wake_boot_unreachable : {sm : Machine} {acts : List Action} → Run sm acts → sm.state ≢ wake_boot
unfolding step init
wake_boot_unreachable start e = absurd (cc e)
wake_boot_unreachable (taken {sm} a i run h) e = elim (Option-cases (transition a sm.state)) [
  | inl none_allowed ↦ absurd (ground arith)
  | inr (t, allowed) ↦ transition-ne a sm.state t allowed (ground arith)
]
wake_boot_unreachable (refused {sm} a i run h) e = elim (Option-cases (transition a sm.state)) [
  | inl none_allowed ↦ wake_boot_unreachable run (ground arith)
  | inr (t, allowed) ↦ absurd (ground arith)
]
