-- ===== src/Runtime/Security.antt =====
-- Authentication and authorisation of commands, runtime/src/ev_command_security.c.
mod Commands
pub mod Guards
pub use Commands.{Policy, Audit}
unfoldable pub use Commands.{str_equal, authenticate, authorize}
