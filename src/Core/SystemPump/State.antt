-- ===== src/Core/SystemPump/State.antt =====
-- The state of the system pump of core/src/ev_system_pump.c. The pump of a domain lives in the slot
-- it is bound to.
use esp8266_event_driven_fra.Prelude.{
  ℕ, zero, suc, Bool, false, not, Option, none, some, List, ltb, leb, if◌then◌else◌, get_or, set,
  replicate, inc32, add32, is_none,
}
use esp8266_event_driven_fra.Core.Result.{Result, ok, err_state}
use esp8266_event_driven_fra.Core.Actor.{System}
use esp8266_event_driven_fra.Core.DomainPump
use esp8266_event_driven_fra.Core.DomainPump.{DomainPump, domain_index}

-- `EV_DOMAIN_COUNT`, which also stands for no domain.
abbrev pub domain_count : ℕ
domain_count = 4

pub record Stats : Type 0 where
  pub run_calls : ℕ
  pub empty_calls : ℕ
  pub budget_hits : ℕ
  pub domains_pumped : ℕ
  pub turns_processed : ℕ
  pub messages_processed : ℕ
  pub last_turn_budget : ℕ
  pub last_turns_processed : ℕ
  pub pending_high_watermark : ℕ
  pub max_domains_examined_per_call : ℕ
  pub max_domains_pumped_per_call : ℕ
  pub max_turns_per_call : ℕ
  pub max_messages_per_call : ℕ
  pub last_domain : ℕ
  pub last_result : Result

pub record SystemPump : Type 0 where
  pub slots : List (Option DomainPump)
  pub next_domain_index : ℕ
  pub stats : Stats

pub record Report : Type 0 where
  pub turn_budget : ℕ
  pub turns_processed : ℕ
  pub domains_examined : ℕ
  pub domains_pumped : ℕ
  pub messages_processed : ℕ
  pub pending_before : ℕ
  pub pending_after : ℕ
  pub exhausted_turn_budget : Bool
  pub last_domain : ℕ
  pub stop_result : Result

abbrev fresh_stats : Stats
fresh_stats = record {
  run_calls = 0;
  empty_calls = 0;
  budget_hits = 0;
  domains_pumped = 0;
  turns_processed = 0;
  messages_processed = 0;
  last_turn_budget = 0;
  last_turns_processed = 0;
  pending_high_watermark = 0;
  max_domains_examined_per_call = 0;
  max_domains_pumped_per_call = 0;
  max_turns_per_call = 0;
  max_messages_per_call = 0;
  last_domain = domain_count;
  last_result = ok;
}

-- `ev_system_pump_report_reset`
abbrev pub zero_report : Report
zero_report = record {
  turn_budget = 0;
  turns_processed = 0;
  domains_examined = 0;
  domains_pumped = 0;
  messages_processed = 0;
  pending_before = 0;
  pending_after = 0;
  exhausted_turn_budget = false;
  last_domain = domain_count;
  stop_result = ok;
}

-- `if (x > max) max = x`
abbrev raise_to : ℕ → ℕ → ℕ
raise_to x max = if ltb max x then x else max

-- `ev_system_pump_record_pending_high_watermark`
abbrev pub record_pending_high_watermark : ℕ → Stats → Stats
record_pending_high_watermark pending st = record st {
  pending_high_watermark = raise_to pending st.pending_high_watermark;
}

-- `ev_system_pump_record_call_maxima`
abbrev pub record_call_maxima : Report → Stats → Stats
record_call_maxima r st = record st {
  max_domains_examined_per_call = raise_to r.domains_examined st.max_domains_examined_per_call;
  max_domains_pumped_per_call = raise_to r.domains_pumped st.max_domains_pumped_per_call;
  max_turns_per_call = raise_to r.turns_processed st.max_turns_per_call;
  max_messages_per_call = raise_to r.messages_processed st.max_messages_per_call;
}

-- `ev_system_pump_cursor_advance`
unfoldable pub cursor_advance : ℕ → ℕ
cursor_advance cursor = if leb domain_count (inc32 cursor) then 0 else inc32 cursor

abbrev pub pump_at : SystemPump → ℕ → Option DomainPump
pump_at pump i = get_or pump.slots i none

-- `ev_system_pump_init`
unfoldable pub init : Result × SystemPump
init =
    (ok, record { slots = replicate domain_count none; next_domain_index = 0; stats = fresh_stats })

-- `ev_system_pump_bind`
unfoldable pub bind : SystemPump → DomainPump → Result × SystemPump
bind pump domain_pump =
    let i = domain_index domain_pump.domain in
    if not (is_none (pump_at pump i))
    then (err_state, pump)
    else (ok, record pump { slots = set pump.slots i (some domain_pump) })

-- `ev_system_pump_reset_stats`
unfoldable pub reset_stats : SystemPump → Result × SystemPump
reset_stats pump = (ok, record pump { stats = fresh_stats })

-- The loop of `ev_system_pump_bound_count`.
unfoldable pub count_from : SystemPump → ℕ → ℕ → ℕ → ℕ
count_from pump zero i count = count
count_from pump (suc n) i count =
    count_from pump n (suc i) (if is_none (pump_at pump i) then count else inc32 count)

-- `ev_system_pump_bound_count`
unfoldable pub bound_count : SystemPump → ℕ
unfolding count_from
bound_count pump = count_from pump domain_count 0 0

module _ {S : Type 0} where
  -- The loop of `ev_system_pump_pending`.
  unfoldable pub pending_from : SystemPump → System S → ℕ → ℕ → ℕ → ℕ
  pending_from pump sys zero i total = total
  pending_from pump sys (suc n) i total =
      pending_from pump sys n (suc i)
        (elim (pump_at pump i) [ none ↦ total | some p ↦ add32 total (DomainPump.pending p sys) ])

  -- `ev_system_pump_pending`
  unfoldable pub pending : SystemPump → System S → ℕ
  unfolding pending_from
  pending pump sys = pending_from pump sys domain_count 0 0
