-- ===== src/Runtime/Quality.antt =====
-- The contract of each quality of service, runtime/src/ev_qos_contract.c.
mod Contracts
pub mod Accepted
pub use Contracts.{FailureBehavior, Contract, Violation, Report}
unfoldable pub use Contracts.{
  contract_for, failure_behavior, failure_is_drop_allowed, failure_is_strict, policy_accepts_qos,
  validate_route_against_module,
}
