-- ===== src/Core/Actor/Pump.antt =====
-- Handling the messages of an actor: `ev_actor_runtime_step` and `ev_actor_runtime_pump` of
-- core/src/ev_actor_runtime.c.
--
-- A handler is called with the actor and the message and may do anything to the system but move
-- the objects: deliver to any actor, its own included, and call the owner of a payload. The
-- handlers with their contexts are one function, a parameter. An actor without a runtime answers as
-- a NULL runtime does.
use esp8266_event_driven_fra.Prelude.{
  ℕ, zero, suc, Bool, true, false, not, ◌&&◌, none, some, ltb, ◌==◌, if◌then◌else◌, inc32,
}
use esp8266_event_driven_fra.Core.Result.{
  Result, ok, is_ok, err_invalid_arg, err_contract, err_empty,
}
use esp8266_event_driven_fra.Core.Catalog
use esp8266_event_driven_fra.Core.Catalog.{actor_id_is_valid}
use esp8266_event_driven_fra.Core.Msg
use esp8266_event_driven_fra.Core.Msg.{Msg, zero_msg}
use esp8266_event_driven_fra.Core.Mailbox
use esp8266_event_driven_fra.Core.Actor.State.{
  RuntimeStats, ActorRuntime, System, runtime_at, put_runtime, restat, pending, fresh_runtime_stats,
}

-- `ev_actor_handler_fn_t`, of every actor.
abbrev pub Handler : Type 0 → Type 0
Handler S = ℕ → Msg S → System S → Result × System S

pub record PumpReport : Type 0 where
  pub budget : ℕ
  pub processed : ℕ
  pub pending_before : ℕ
  pub pending_after : ℕ
  pub exhausted_budget : Bool
  pub stop_result : Result

-- `ev_actor_pump_report_reset`
abbrev pub zero_report : PumpReport
zero_report = record {
  budget = 0;
  processed = 0;
  pending_before = 0;
  pending_after = 0;
  exhausted_budget = false;
  stop_result = ok;
}

-- The counters after the handler answered `rc` and the disposal `dispose_rc`.
abbrev pub count_handled : Result → Result → RuntimeStats → RuntimeStats
count_handled rc dispose_rc st = record st {
  handler_errors = if is_ok rc then st.handler_errors else inc32 st.handler_errors;
  dispose_errors = if is_ok dispose_rc then st.dispose_errors else inc32 st.dispose_errors;
  steps_ok = if is_ok rc && is_ok dispose_rc then inc32 st.steps_ok else st.steps_ok;
  last_result = if is_ok rc then dispose_rc else rc;
}

abbrev pub count_empty : RuntimeStats → RuntimeStats
count_empty st = record st { steps_empty = inc32 st.steps_empty; last_result = err_empty }

abbrev pub begin_pump : ℕ → RuntimeStats → RuntimeStats
begin_pump budget st = record st {
  pump_calls = inc32 st.pump_calls;
  last_pump_budget = budget;
  last_pump_processed = 0;
}

abbrev pub end_pump : ℕ → Bool → RuntimeStats → RuntimeStats
end_pump processed exhausted st = record st {
  last_pump_processed = processed;
  pump_budget_hits = if exhausted then inc32 st.pump_budget_hits else st.pump_budget_hits;
}

module _ {S : Type 0} where
  abbrev pub pending_at : System S → ℕ → ℕ
  pending_at sys i = elim (runtime_at sys i) [ none ↦ 0 | some rt ↦ pending rt ]

  -- `ev_actor_runtime_default_budget`
  unfoldable pub default_budget : ActorRuntime S → ℕ
  default_budget rt =
      if actor_id_is_valid rt.actor_id then Catalog.default_drain_budget rt.actor_id else 0

  -- `ev_actor_runtime_reset_stats`
  unfoldable pub reset_stats : ActorRuntime S → Result × ActorRuntime S
  reset_stats rt = (ok, record rt { stats = fresh_runtime_stats })

  -- What `ev_actor_runtime_pump` does after the loop.
  unfoldable pub finish_pump : ℕ → ℕ → ℕ → Result × ℕ × System S → Result × PumpReport × System S
  finish_pump i budget before (rc, processed, sys) =
      let after = pending_at sys i in
      let exhausted = is_ok rc && (not (ltb processed budget) && ltb 0 after) in
      (
        rc,
        record {
          budget = budget;
          processed = processed;
          pending_before = before;
          pending_after = after;
          exhausted_budget = exhausted;
          stop_result = if is_ok rc && ltb processed budget then err_empty else rc;
        },
        restat sys i (end_pump processed exhausted),
      )

module _ {S : Type 0} (handler : Handler S) where
  -- From the call of the handler to the end of `ev_actor_runtime_process_one`.
  unfoldable pub handle : ℕ → Msg S → System S → Result × System S
  handle i m sys =
      let (rc, sys₁) = handler i m sys in
      let (dispose_rc, _, owner) = Msg.dispose m sys₁.owner in
      (
        if is_ok rc then dispose_rc else rc,
        restat (record sys₁ { owner = owner }) i (count_handled rc dispose_rc),
      )

  -- `ev_actor_runtime_process_one`
  unfoldable pub process_one : ℕ → System S → Result × System S
  unfolding handle
  process_one i sys = elim (runtime_at sys i) [
    | none ↦ (err_invalid_arg, sys)
    | some rt ↦
        let (rc, out, mb) = Mailbox.pop rt.mailbox in
        if not (is_ok rc)
        then (rc, put_runtime sys i (record rt { stats = record (rt.stats) { last_result = rc } }))
        else elim out [
          | none ↦ handle i zero_msg (put_runtime sys i (record rt { mailbox = mb }))
          | some m ↦ handle i m (put_runtime sys i (record rt { mailbox = mb }))
        ]
  ]

  -- `ev_actor_runtime_step`
  unfoldable pub step : ℕ → System S → Result × System S
  unfolding process_one
  step i sys = elim (runtime_at sys i) [
    | none ↦ (err_invalid_arg, sys)
    | some rt ↦
        if Mailbox.is_empty rt.mailbox
        then (err_empty, put_runtime sys i (record rt { stats = count_empty rt.stats }))
        else process_one i sys
  ]

  -- The loop of `ev_actor_runtime_pump`, by the budget left: the result of the last message, how
  -- many were processed, and the system.
  unfoldable pub pump_loop : ℕ → ℕ → System S → Result × ℕ × System S
  unfolding process_one
  pump_loop zero i sys = (ok, 0, sys)
  pump_loop (suc n) i sys = elim (pending_at sys i == 0) [
    | true ↦ (ok, 0, sys)
    | false ↦
        let (rc, sys₁) = process_one i sys in
        elim (is_ok rc) [
          | false ↦ (rc, 1, sys₁)
          | true ↦ let (rc', k, sys₂) = pump_loop n i sys₁ in (rc', suc k, sys₂)
        ]
  ]

  -- `ev_actor_runtime_pump`
  unfoldable pub pump : ℕ → ℕ → System S → Result × PumpReport × System S
  unfolding pump_loop finish_pump
  pump i budget sys = elim (runtime_at sys i) [
    | none ↦ (err_invalid_arg, zero_report, sys)
    | some rt ↦
        if budget == 0
        then (err_invalid_arg, zero_report, sys)
        else let sys₁ = restat sys i (begin_pump budget) in
          if pending rt == 0
          then (
            err_empty,
            record zero_report { budget = budget; stop_result = err_empty },
            restat sys₁ i count_empty,
          )
          else finish_pump i budget (pending rt) (pump_loop budget i sys₁)
  ]

  -- `ev_actor_runtime_pump_default`
  unfoldable pub pump_default : ℕ → System S → Result × PumpReport × System S
  unfolding pump
  pump_default i sys = elim (runtime_at sys i) [
    | none ↦ (err_contract, zero_report, sys)
    | some rt ↦
        if default_budget rt == 0
        then (err_contract, zero_report, sys)
        else pump i (default_budget rt) sys
  ]
