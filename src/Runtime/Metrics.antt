-- ===== src/Runtime/Metrics.antt =====
-- The metrics of runtime/src/ev_metrics_registry.c over config/metrics.def, whose identifiers are
-- unsigned words, so that the test for a negative one never holds.
mod Registry
pub mod Samples
pub use Registry.{
  Kind, Sample, Metrics, metric_count, metric_post_ok, metric_post_dropped,
  metric_delivery_attempted, metric_delivery_ok, metric_delivery_failed, metric_mailbox_overflow,
  metric_fault_emitted, metric_trace_dropped, metric_route_disabled_skipped,
  metric_route_validation_rejected, metric_route_qos_conflict, metric_qos_coalesced,
  metric_qos_replaced, metric_qos_dropped,
}
unfoldable pub use Registry.{init, increment, set_gauge, read, snapshot}
