-- ===== src/Core/DomainPump/State.antt =====
-- The state of a domain pump, and what core/src/ev_domain_pump.c counts over the actors.
use esp8266_event_driven_fra.Prelude.{
  ℕ, zero, suc, Bool, false, none, some, ltb, leb, ◌==◌, if◌then◌else◌, inc32, add32,
}
use esp8266_event_driven_fra.Core.Result.{Result, ok}
use esp8266_event_driven_fra.Core.Catalog.{
  Domain, isr, fast_loop, slow_io, network, actor_none, actor_count, actor_meta,
}
use esp8266_event_driven_fra.Core.Actor.{System, runtime_at}
use esp8266_event_driven_fra.Core.Actor

pub record Stats : Type 0 where
  pub pump_calls : ℕ
  pub pump_empty_calls : ℕ
  pub pump_budget_hits : ℕ
  pub last_budget : ℕ
  pub last_processed : ℕ
  pub pending_high_watermark : ℕ
  pub max_actors_examined_per_call : ℕ
  pub max_actors_pumped_per_call : ℕ
  pub max_messages_per_call : ℕ
  pub last_actor : ℕ
  pub last_result : Result

-- The registry of the pump is the system that its operations are given.
pub record DomainPump : Type 0 where
  pub domain : Domain
  pub next_actor_index : ℕ
  pub stats : Stats

pub record Report : Type 0 where
  pub budget : ℕ
  pub processed : ℕ
  pub pending_before : ℕ
  pub pending_after : ℕ
  pub actors_examined : ℕ
  pub actors_pumped : ℕ
  pub exhausted_budget : Bool
  pub last_actor : ℕ
  pub stop_result : Result

abbrev fresh_stats : Stats
fresh_stats = record {
  pump_calls = 0;
  pump_empty_calls = 0;
  pump_budget_hits = 0;
  last_budget = 0;
  last_processed = 0;
  pending_high_watermark = 0;
  max_actors_examined_per_call = 0;
  max_actors_pumped_per_call = 0;
  max_messages_per_call = 0;
  last_actor = actor_none;
  last_result = ok;
}

-- `ev_domain_pump_report_reset`
abbrev pub zero_report : Report
zero_report = record {
  budget = 0;
  processed = 0;
  pending_before = 0;
  pending_after = 0;
  actors_examined = 0;
  actors_pumped = 0;
  exhausted_budget = false;
  last_actor = actor_none;
  stop_result = ok;
}

-- The value of the enumeration.
abbrev pub domain_index : Domain → ℕ
domain_index isr = 0
domain_index fast_loop = 1
domain_index slow_io = 2
domain_index network = 3

-- `ev_domain_pump_actor_matches`
unfoldable pub actor_matches : ℕ → Domain → Bool
actor_matches actor_id domain = elim (actor_meta actor_id) [
  | none ↦ false
  | some m ↦ domain_index m.execution_domain == domain_index domain
]

-- `ev_domain_pump_cursor_advance`
unfoldable pub cursor_advance : ℕ → ℕ → ℕ
cursor_advance cursor count =
    if count == 0 then 0 else if leb count (inc32 cursor) then 0 else inc32 cursor

-- `if (x > max) max = x`
abbrev pub raise_to : ℕ → ℕ → ℕ
raise_to x max = if ltb max x then x else max

-- `ev_domain_pump_record_pending_high_watermark`
abbrev pub record_pending_high_watermark : ℕ → Stats → Stats
record_pending_high_watermark pending st = record st {
  pending_high_watermark = raise_to pending st.pending_high_watermark;
}

-- `ev_domain_pump_record_call_maxima`
abbrev pub record_call_maxima : Report → Stats → Stats
record_call_maxima r st = record st {
  max_actors_examined_per_call = raise_to r.actors_examined st.max_actors_examined_per_call;
  max_actors_pumped_per_call = raise_to r.actors_pumped st.max_actors_pumped_per_call;
  max_messages_per_call = raise_to r.processed st.max_messages_per_call;
}

-- The loop of `ev_domain_pump_domain_default_budget`, by the rounds left, from an actor on.
unfoldable pub budget_from : Domain → ℕ → ℕ → ℕ → ℕ
unfolding actor_matches
budget_from domain zero i total = total
budget_from domain (suc n) i total = elim (actor_meta i) [
  | none ↦ budget_from domain n (suc i) total
  | some m ↦
      budget_from domain n (suc i)
        (if actor_matches i domain then add32 total m.drain_budget else total)
]

-- `ev_domain_pump_default_budget`
unfoldable pub default_budget : DomainPump → ℕ
unfolding budget_from
default_budget pump = budget_from pump.domain actor_count 0 0

-- `ev_domain_pump_init`
unfoldable pub init : Domain → Result × DomainPump
init domain = (ok, record { domain = domain; next_actor_index = 0; stats = fresh_stats })

-- `ev_domain_pump_reset_stats`
unfoldable pub reset_stats : DomainPump → Result × DomainPump
reset_stats pump = (ok, record pump { stats = fresh_stats })

module _ {S : Type 0} where
  -- What one actor adds to the pending messages of a domain.
  unfoldable pub pending_of : Domain → System S → ℕ → ℕ → ℕ
  pending_of domain sys i total =
      if actor_matches i domain
      then elim (runtime_at sys i) [ none ↦ total | some rt ↦ add32 total (Actor.pending rt) ]
      else total

  -- The loop of `ev_domain_pump_pending`.
  unfoldable pub pending_from : Domain → System S → ℕ → ℕ → ℕ → ℕ
  unfolding pending_of
  pending_from domain sys zero i total = total
  pending_from domain sys (suc n) i total =
      pending_from domain sys n (suc i) (pending_of domain sys i total)

  -- `ev_domain_pump_pending`
  unfoldable pub pending : DomainPump → System S → ℕ
  unfolding pending_from
  pending pump sys = pending_from pump.domain sys actor_count 0 0
