-- ===== src/Core/Route.antt =====
-- The routes of core/include/ev/route_table.h: their types in Types, the static table in Table.
mod Types
mod Table
pub mod Spans
pub use Types.{
  Qos, qos_critical, qos_best_effort, qos_lossy, qos_coalesced, qos_latest_only,
  qos_wakeup_critical, qos_telemetry, qos_command, Route, Span,
}
pub use Table.{empty_span}
unfoldable pub use Table.{
  span_is_valid, route_count, route_at, span_for_event, count_for_event, exists_from, exists,
}
