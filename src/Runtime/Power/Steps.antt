-- ===== src/Runtime/Power/Steps.antt =====
-- The states, the actions and the step of runtime/src/ev_power_state_machine.c.
use esp8266_event_driven_fra.Prelude.{ℕ, Option, none, some, inc32}
use esp8266_event_driven_fra.Core.Result.{Result, ok, err_state}

pub data State : Type 0 where
  active sleep_requested draining_runtime log_flushing ports_prepare_sleep rtc_state_saved : State
  entering_deep_sleep wake_boot rejected failed : State

pub data Action : Type 0 where
  request_sleep drain_complete drain_rejected log_flush_complete log_flush_failed : Action
  ports_prepared ports_prepare_failed save_rtc_state rtc_state_save_failed : Action
  deep_sleep_entered deep_sleep_failed boot_after_wake : Action

pub record Input : Type 0 where
  pub result : Result
  pub reason : ℕ

pub record Report : Type 0 where
  pub previous_state : State
  pub new_state : State
  pub action : Action
  pub result : Result
  pub reason : ℕ

pub record Machine : Type 0 where
  pub state : State
  pub previous_state : State
  pub last_action : Action
  pub last_error : Result
  pub last_reason : ℕ
  pub transition_count : ℕ

-- `ev_power_transition_allowed`: the state that an allowed action leads to.
unfoldable pub transition : Action → State → Option State
transition request_sleep active = some sleep_requested
transition drain_complete sleep_requested = some draining_runtime
transition drain_rejected sleep_requested = some rejected
transition drain_rejected draining_runtime = some rejected
transition log_flush_complete draining_runtime = some log_flushing
transition log_flush_failed draining_runtime = some failed
transition log_flush_failed log_flushing = some failed
transition ports_prepared log_flushing = some ports_prepare_sleep
transition ports_prepare_failed log_flushing = some failed
transition ports_prepare_failed ports_prepare_sleep = some failed
transition save_rtc_state ports_prepare_sleep = some rtc_state_saved
transition rtc_state_save_failed ports_prepare_sleep = some failed
transition deep_sleep_entered rtc_state_saved = some entering_deep_sleep
transition deep_sleep_failed rtc_state_saved = some failed
transition deep_sleep_failed entering_deep_sleep = some failed
transition boot_after_wake wake_boot = some active
transition boot_after_wake entering_deep_sleep = some active
transition boot_after_wake failed = some active
transition boot_after_wake rejected = some active
transition _ _ = none

-- `ev_power_state_machine_init`; the memset leaves the first action, `EV_POWER_ACTION_REQUEST_SLEEP`.
unfoldable pub init : Machine
init = record {
  state = active;
  previous_state = active;
  last_action = request_sleep;
  last_error = ok;
  last_reason = 0;
  transition_count = 0;
}

abbrev input_result : Option Input → Result
input_result none = ok
input_result (some input) = input.result

abbrev input_reason : Option Input → ℕ
input_reason none = 0
input_reason (some input) = input.reason

-- `ev_power_state_machine_step`; the report is always made.
unfoldable pub step : Machine → Action → Option Input → Result × Machine × Report
step sm action input = elim (transition action sm.state) [
  | none ↦ (
    err_state,
    record sm {
      previous_state = sm.state;
      last_action = action;
      last_error = err_state;
      last_reason = input_reason input;
    },
    record {
      previous_state = sm.state;
      new_state = sm.state;
      action = action;
      result = err_state;
      reason = input_reason input;
    },
  )
  | some next_state ↦ (
    ok,
    record {
      state = next_state;
      previous_state = sm.state;
      last_action = action;
      last_error = input_result input;
      last_reason = input_reason input;
      transition_count = inc32 sm.transition_count;
    },
    record {
      previous_state = sm.state;
      new_state = next_state;
      action = action;
      result = input_result input;
      reason = input_reason input;
    },
  )
]
