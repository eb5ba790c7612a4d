-- ===== src/Core/Result.antt =====
-- core/include/ev/result.h: the result codes that every fallible call returns.
use esp8266_event_driven_fra.Prelude.{Bool, true, false}

pub data Result : Type 0 where
  ok err_invalid_arg err_out_of_range err_not_found err_state err_contract err_full : Result
  err_empty err_unsupported err_partial err_no_capability err_auth err_policy : Result
  err_timeout err_not_ready : Result

-- `rc == EV_OK`
abbrev pub is_ok : Result → Bool
is_ok ok = true
is_ok _ = false
