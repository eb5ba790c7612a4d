-- ===== src/Runtime/Quality/Accepted.antt =====
-- Which routes a module accepts, as a list of its policies.
use esp8266_event_driven_fra.Prelude.{
  ℕ, ◌≡◌, ◌↔◌, ◌⊎◌, true, List, [], ◌∷◌, arith, ◌==◌, Bool, false, ◌||◌,
}
use esp8266_event_driven_fra.Core.Result.{ok, err_policy}
use esp8266_event_driven_fra.Core.Route.{
  Qos, qos_critical, qos_best_effort, qos_lossy, qos_coalesced, qos_latest_only,
  qos_wakeup_critical, qos_telemetry, qos_command,
}
use esp8266_event_driven_fra.Runtime.Quality.Contracts.{
  validate_route_against_module, contract_for, policy_accepts_qos, failure_is_strict,
  failure_behavior,
}

-- The policies of the modules that a route of a quality may lead to.
abbrev pub policies_of : Qos → List ℕ
policies_of qos_critical = 0 ∷ 5 ∷ 6 ∷ 7 ∷ []
policies_of qos_best_effort = 0 ∷ 1 ∷ 6 ∷ []
policies_of qos_lossy = 0 ∷ 2 ∷ 6 ∷ []
policies_of qos_coalesced = 0 ∷ 3 ∷ []
policies_of qos_latest_only = 0 ∷ 4 ∷ []
policies_of qos_wakeup_critical = 5 ∷ []
policies_of qos_telemetry = 6 ∷ []
policies_of qos_command = 7 ∷ []

abbrev pub is_one_of : ℕ → List ℕ → Bool
is_one_of p [] = false
is_one_of p (q ∷ qs) = (p == q) || is_one_of p qs

-- A route is accepted for a module exactly if the policy of the module is one of those listed for
-- the quality of the route, every other answer is a policy error, and the report says which; a
-- quality is strict exactly if no loss of its messages is allowed.
pub validate_route_iff :
    (qos : Qos) (policy : ℕ)
    → let (rc, report) = validate_route_against_module qos policy in
      ((rc ≡ ok) ↔ (is_one_of policy (policies_of qos) ≡ true))
      × ((rc ≡ ok) ⊎ (rc ≡ err_policy))
      × ((report.accepted ≡ true) ↔ (rc ≡ ok))
      × ((failure_is_strict qos ≡ true) ↔ ((contract_for qos).allows_drop ≡ false))
unfolding validate_route_against_module contract_for policy_accepts_qos failure_is_strict
    failure_behavior
validate_route_iff qos policy = ground arith
