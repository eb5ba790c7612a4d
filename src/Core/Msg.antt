-- ===== src/Core/Msg.antt =====
-- The runtime envelope, core/include/ev/msg.h, core/src/ev_msg.c and core/src/ev_dispose.c: its data
-- in Data, what attaches and disposes of a payload in Attach, the checks in Validate.
mod Data
mod Attach
mod Validate
pub mod Contract
pub mod Lifetime
pub use Data.{
  inline_capacity, msg_cookie, flag_disposed, Storage, storage_none, storage_inline,
  storage_external, is_external, is_inline, is_storage_none, RetainFn, ReleaseFn, External, Msg,
  zero_bytes, zero_external, zero_msg,
}
unfoldable pub use Data.{is_disposed, reset, has_cookie}
unfoldable pub use Attach.{
  payload_requires_release, release_payload, dispose, init_publish, init_send, payload_kind,
  set_inline_payload, set_external_payload,
}
unfoldable pub use Validate.{retain, validate, payload_data}
pub use Validate.{DataRef, null, own_bytes, outside}
