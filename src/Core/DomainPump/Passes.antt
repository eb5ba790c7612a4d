-- ===== src/Core/DomainPump/Passes.antt =====
-- `ev_domain_pump_run` of core/src/ev_domain_pump.c, from the body of its inner loop outwards.
use esp8266_event_driven_fra.Prelude.{
  ℕ, zero, suc, Bool, true, false, not, ◌&&◌, Option, none, some, ltb, leb, ◌==◌, if◌then◌else◌,
  inc32, add32, sub32,
}
use esp8266_event_driven_fra.Core.Result.{
  Result, ok, is_ok, err_invalid_arg, err_state, err_contract, err_empty,
}
use esp8266_event_driven_fra.Core.Catalog.{actor_count}
use esp8266_event_driven_fra.Core.Actor
use esp8266_event_driven_fra.Core.Actor.{ActorRuntime, System, Handler, PumpReport, runtime_at}
use esp8266_event_driven_fra.Core.DomainPump.State.{
  DomainPump, Report, Stats, zero_report, actor_matches, cursor_advance, pending,
  record_pending_high_watermark, record_call_maxima,
}

abbrev pub is_err_empty : Result → Bool
is_err_empty err_empty = true
is_err_empty _ = false

-- The variables of the function, with what it changes.
pub record Frame (S : Type 0) : Type 0 where
  pub sys : System S
  pub pump : DomainPump
  pub report : Report
  pub remaining : ℕ
  pub progressed : Bool
  pub made_progress : Bool

abbrev pub set_last_actor : ℕ → Stats → Stats
set_last_actor id st = record st { last_actor = id }

abbrev pub set_last_result : Result → Stats → Stats
set_last_result rc st = record st { last_result = rc }

abbrev pub set_last_processed : ℕ → Stats → Stats
set_last_processed n st = record st { last_processed = n }

abbrev begin_run : ℕ → Stats → Stats
begin_run budget st = record st {
  pump_calls = inc32 st.pump_calls;
  last_budget = budget;
  last_processed = 0;
}

-- What one pump of an actor adds to the report.
abbrev pub count_pumped : PumpReport → Report → Report
count_pumped rep r = record r {
  processed = add32 r.processed rep.processed;
  actors_pumped = inc32 r.actors_pumped;
}

module _ {S : Type 0} where
  abbrev pub count_examined : Frame S → Frame S
  count_examined f = record f {
    report = record (f.report) { actors_examined = inc32 f.report.actors_examined };
  }

  -- An early return of the function with a result.
  unfoldable pub leave : Result → Frame S → Option Result × Frame S
  leave rc f =
      let r : Report = record (f.report) {
        pending_after = pending f.pump f.sys;
        stop_result = rc;
      } in
      (
        some rc,
        record f {
          report = r;
          pump = record (f.pump) { stats = record_call_maxima r (set_last_result rc f.pump.stats) };
        },
      )

  -- The actor has no drain budget.
  unfoldable pub leave_unfunded : ActorRuntime S → Frame S → Option Result × Frame S
  unfolding leave
  leave_unfunded rt f = leave err_contract (record f {
    pump = record (f.pump) { stats = set_last_actor rt.actor_id f.pump.stats };
    report = record (f.report) { last_actor = rt.actor_id };
  })

  -- The pump of the actor failed.
  unfoldable pub leave_failed : Result → PumpReport → Frame S → Option Result × Frame S
  unfolding leave
  leave_failed rc rep f =
      let r = count_pumped rep f.report in
      leave rc (record f {
        report = r;
        pump = record (f.pump) { stats = set_last_processed r.processed f.pump.stats };
      })

  -- What the pump of the actor answered, to the end of the body.
  unfoldable pub settle : Result → PumpReport → Frame S → Option Result × Frame S
  unfolding leave_failed
  settle rc rep f =
      if is_err_empty rc then (none, f) else if not (is_ok rc) then leave_failed rc rep f else (
        none,
        record f {
          report = count_pumped rep f.report;
          remaining = sub32 f.remaining rep.processed;
          progressed = true;
          made_progress = true;
        },
      )

  -- From the end of the outer loop to the end of the function.
  unfoldable pub finish : Frame S → Result × Report × DomainPump × System S
  finish f =
      let after = pending f.pump f.sys in
      let exhausted = f.made_progress && ((f.remaining == 0) && ltb 0 after) in
      let rc = if f.made_progress then ok else err_state in
      let r : Report = record (f.report) {
        pending_after = after;
        exhausted_budget = exhausted;
        stop_result = if f.made_progress then (if exhausted then ok else err_empty) else err_state;
      } in
      let st = set_last_result rc (set_last_processed r.processed f.pump.stats) in
      let st' : Stats = record st {
        pump_budget_hits = if exhausted then inc32 st.pump_budget_hits else st.pump_budget_hits;
      } in
      (rc, r, record (f.pump) { stats = record_call_maxima r st' }, f.sys)

  -- How the function returns.
  unfoldable pub answer : Option Result × Frame S → Result × Report × DomainPump × System S
  unfolding finish
  answer (some rc, f) = (rc, f.report, f.pump, f.sys)
  answer (none, f) = finish f

  -- The frame at the start of the outer loop.
  abbrev pub start_frame : ℕ → DomainPump → System S → Frame S
  start_frame budget pump sys =
      let before = pending pump sys in
      record {
        sys = sys;
        pump = record pump {
          next_actor_index =
              if leb actor_count pump.next_actor_index then 0 else pump.next_actor_index;
          stats = record_pending_high_watermark before (begin_run budget pump.stats);
        };
        report = record zero_report { budget = budget; pending_before = before };
        remaining = budget;
        progressed = false;
        made_progress = false;
      }

  -- No message was pending.
  unfoldable pub run_empty : ℕ → DomainPump → System S → Result × Report × DomainPump × System S
  run_empty budget pump sys =
      let r : Report = record zero_report { budget = budget; stop_result = err_empty } in
      let st = begin_run budget pump.stats in
      let st' : Stats = record st {
        pump_empty_calls = inc32 st.pump_empty_calls;
        last_result = err_empty;
      } in
      (err_empty, r, record pump { stats = record_call_maxima r st' }, sys)

module _ {S : Type 0} (handler : Handler S) where
  -- An actor with messages and a budget is pumped.
  unfoldable pub pump_actor : ℕ → ActorRuntime S → Frame S → Option Result × Frame S
  unfolding settle
  pump_actor index rt f =
      let budget = Actor.default_budget rt in
      let allowed = if ltb f.remaining budget then f.remaining else budget in
      let (rc, rep, sys) = Actor.pump handler index allowed f.sys in
      settle rc rep (record f {
        sys = sys;
        pump = record (f.pump) {
          next_actor_index = cursor_advance index actor_count;
          stats = set_last_actor rt.actor_id f.pump.stats;
        };
        report = record (f.report) { last_actor = rt.actor_id };
      })

  -- The body of the inner loop; none for the next round, some for an early return.
  unfoldable pub visit : ℕ → Frame S → Option Result × Frame S
  unfolding pump_actor leave_unfunded
  visit index f =
      if not (actor_matches index f.pump.domain) then (none, f) else elim (runtime_at f.sys index) [
        | none ↦ (none, count_examined f)
        | some rt ↦
            if Actor.pending rt == 0
            then (none, count_examined f)
            else if Actor.default_budget rt == 0
            then leave_unfunded rt (count_examined f)
            else pump_actor index rt (count_examined f)
      ]

  -- The inner loop, by the offsets left. `remaining` is 0 after a round only if that round used
  -- the rest of it up, which is where the source breaks.
  unfoldable pub pass : ℕ → ℕ → Frame S → Option Result × Frame S
  unfolding visit
  pass zero index f = (none, f)
  pass (suc n) index f =
      let (stop, f₁) = visit index f in
      elim stop [
        | some rc ↦ (some rc, f₁)
        | none ↦ elim (f₁.remaining == 0) [
          | true ↦ (none, f₁)
          | false ↦ pass n (cursor_advance index actor_count) f₁
        ]
      ]

  -- The outer loop, on fuel.
  unfoldable pub passes : ℕ → Frame S → Option Result × Frame S
  unfolding pass
  passes zero f = (none, f)
  passes (suc n) f = elim (f.remaining == 0) [
    | true ↦ (none, f)
    | false ↦
        let (stop, f₁) =
          pass actor_count f.pump.next_actor_index (record f { progressed = false }) in
        elim stop [
          | some rc ↦ (some rc, f₁)
          | none ↦ elim f₁.progressed [ false ↦ (none, f₁) | true ↦ passes n f₁ ]
        ]
  ]

  -- `ev_domain_pump_run`. Each pass but the last uses up a part of the budget: see Stops.antt.
  unfoldable pub run : ℕ → DomainPump → System S → Result × Report × DomainPump × System S
  unfolding passes answer run_empty
  run budget pump sys =
      if budget == 0
      then (err_invalid_arg, zero_report, pump, sys)
      else if pending pump sys == 0
      then run_empty budget pump sys
      else answer (passes budget (start_frame budget pump sys))
