-- ===== src/Runtime/Quality/Contracts.antt =====
-- `ev_qos_contract_for` and what is decided by it. Of a module descriptor only the policy is read.
use esp8266_event_driven_fra.Prelude.{ℕ, Bool, true, false, not, ◌&&◌, ◌||◌, ◌==◌, if◌then◌else◌}
use esp8266_event_driven_fra.Core.Result.{Result, ok, err_policy}
use esp8266_event_driven_fra.Core.Route.{
  Qos, qos_critical, qos_best_effort, qos_lossy, qos_coalesced, qos_latest_only,
  qos_wakeup_critical, qos_telemetry, qos_command,
}

pub data FailureBehavior : Type 0 where
  strict drop_allowed coalesce replace_latest : FailureBehavior

pub record Contract : Type 0 where
  pub qos : Qos
  pub failure_behavior : FailureBehavior
  pub requires_reliable_delivery : Bool
  pub allows_drop : Bool
  pub allows_coalesce : Bool
  pub allows_latest_replace : Bool
  pub wakeup_relevant : Bool
  pub command_relevant : Bool
  pub telemetry_relevant : Bool

pub data Violation : Type 0 where
  contract_ok invalid_qos module_policy_mismatch wakeup_policy_mismatch : Violation
  command_policy_mismatch telemetry_policy_mismatch unpromoted_algorithm : Violation

pub record Report : Type 0 where
  pub violation : Violation
  pub route_qos : Qos
  pub module_route_policy : ℕ
  pub accepted : Bool

-- The value of the enumeration.
abbrev pub qos_index : Qos → ℕ
qos_index qos_critical = 0
qos_index qos_best_effort = 1
qos_index qos_lossy = 2
qos_index qos_coalesced = 3
qos_index qos_latest_only = 4
qos_index qos_wakeup_critical = 5
qos_index qos_telemetry = 6
qos_index qos_command = 7

-- The contract after it was cleared.
abbrev plain : Qos → FailureBehavior → Contract
plain qos behavior = record {
  qos = qos;
  failure_behavior = behavior;
  requires_reliable_delivery = false;
  allows_drop = false;
  allows_coalesce = false;
  allows_latest_replace = false;
  wakeup_relevant = false;
  command_relevant = false;
  telemetry_relevant = false;
}

abbrev reliable : Qos → Contract
reliable qos = record (plain qos FailureBehavior.strict) { requires_reliable_delivery = true }

abbrev droppable : Qos → FailureBehavior → Contract
droppable qos behavior = record (plain qos behavior) { allows_drop = true }

-- `ev_qos_contract_for`, which succeeds for each of the constants.
unfoldable pub contract_for : Qos → Contract
contract_for qos_critical = reliable qos_critical
contract_for qos_wakeup_critical = record (reliable qos_wakeup_critical) { wakeup_relevant = true }
contract_for qos_command = record (reliable qos_command) { command_relevant = true }
contract_for qos_best_effort = droppable qos_best_effort FailureBehavior.drop_allowed
contract_for qos_lossy = droppable qos_lossy FailureBehavior.drop_allowed
contract_for qos_telemetry = record (droppable qos_telemetry FailureBehavior.drop_allowed) {
  telemetry_relevant = true;
}
contract_for qos_coalesced = record (droppable qos_coalesced FailureBehavior.coalesce) {
  allows_coalesce = true;
}
contract_for qos_latest_only = record (droppable qos_latest_only FailureBehavior.replace_latest) {
  allows_latest_replace = true;
}

-- `ev_qos_failure_behavior`
unfoldable pub failure_behavior : Qos → FailureBehavior
unfolding contract_for
failure_behavior qos = (contract_for qos).failure_behavior

abbrev is_strict : FailureBehavior → Bool
is_strict FailureBehavior.strict = true
is_strict _ = false

-- `ev_qos_failure_is_drop_allowed`
unfoldable pub failure_is_drop_allowed : Qos → Bool
unfolding failure_behavior
failure_is_drop_allowed qos = not (is_strict (failure_behavior qos))

-- `ev_qos_failure_is_strict`
unfoldable pub failure_is_strict : Qos → Bool
unfolding failure_behavior
failure_is_strict qos = is_strict (failure_behavior qos)

abbrev qos_is : Qos → Qos → Bool
qos_is q r = qos_index q == qos_index r

-- `ev_actor_module_route_policy_accepts_qos`, for a descriptor with the policy.
unfoldable pub policy_accepts_qos : ℕ → Qos → Bool
policy_accepts_qos policy qos =
    if (policy == 0) || (qos_index qos == policy)
    then true
    else if (policy == qos_index qos_wakeup_critical) && qos_is qos qos_critical
    then true
    else if (policy == qos_index qos_telemetry)
        && (qos_is qos qos_telemetry
            || (qos_is qos qos_best_effort || (qos_is qos qos_lossy || qos_is qos qos_critical)))
    then true
    else (policy == qos_index qos_command) && (qos_is qos qos_command || qos_is qos qos_critical)

-- `ev_qos_validate_route_against_module`, for the quality of a route and the policy of a module.
unfoldable pub validate_route_against_module : Qos → ℕ → Result × Report
unfolding contract_for policy_accepts_qos
validate_route_against_module qos policy =
    let contract = contract_for qos in
    let r : Report = record {
      violation = Violation.contract_ok;
      route_qos = qos;
      module_route_policy = policy;
      accepted = false;
    } in
    if not (policy_accepts_qos policy qos)
    then (err_policy, record r { violation = Violation.module_policy_mismatch })
    else if contract.wakeup_relevant && not (policy == qos_index qos_wakeup_critical)
    then (err_policy, record r { violation = Violation.wakeup_policy_mismatch })
    else if contract.command_relevant && not (policy == qos_index qos_command)
    then (err_policy, record r { violation = Violation.command_policy_mismatch })
    else if contract.telemetry_relevant && not (policy == qos_index qos_telemetry)
    then (err_policy, record r { violation = Violation.telemetry_policy_mismatch })
    else (ok, record r { accepted = true })
