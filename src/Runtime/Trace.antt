-- ===== src/Runtime/Trace.antt =====
-- The trace ring of runtime/src/ev_trace_ring.c, compiled with `EV_TRACE_ENABLE`: its operations in
-- Buffer, what they do to the records held in History.
mod Buffer
pub mod History
pub use Buffer.{TraceRecord, TraceRing}
unfoldable pub use Buffer.{
  capacity, zero_record, init, record_event, pending, dropped, drain, clear,
}
