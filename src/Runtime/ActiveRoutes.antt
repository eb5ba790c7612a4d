-- ===== src/Runtime/ActiveRoutes.antt =====
-- The routes that a configured runtime uses, runtime/src/ev_active_route_table.c: the table in
-- Entries, the spans that are computed from it in Finalize.
mod Entries
mod Finalize
pub mod Exact
pub use Entries.{State, ActiveRoute, Table, capacity}
unfoldable pub use Entries.{init, add, route_at}
unfoldable pub use Finalize.{finalize_spans, span_for_event}
