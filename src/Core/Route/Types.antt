-- ===== src/Core/Route/Types.antt =====
-- The route types of core/include/ev/route_table.h.
use esp8266_event_driven_fra.Prelude.{ℕ}

pub data Qos : Type 0 where
  qos_critical qos_best_effort qos_lossy qos_coalesced qos_latest_only : Qos
  qos_wakeup_critical qos_telemetry qos_command : Qos

pub record Route : Type 0 where
  pub event_id : ℕ
  pub target_actor : ℕ
  pub qos : Qos
  pub priority : ℕ
  pub flags : ℕ

pub record Span : Type 0 where
  pub start_index : ℕ
  pub count : ℕ
