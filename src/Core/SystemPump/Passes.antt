-- ===== src/Core/SystemPump/Passes.antt =====
-- `ev_system_pump_run` of core/src/ev_system_pump.c, from the body of its inner loop outwards.
use esp8266_event_driven_fra.Prelude.{
  ℕ, zero, suc, Bool, true, false, not, ◌&&◌, Option, none, some, ltb, leb, ◌==◌, if◌then◌else◌,
  set, inc32, add32, sub32,
}
use esp8266_event_driven_fra.Core.Result.{
  Result, ok, is_ok, err_invalid_arg, err_state, err_contract, err_empty,
}
use esp8266_event_driven_fra.Core.Actor.{System, Handler}
use esp8266_event_driven_fra.Core.DomainPump
use esp8266_event_driven_fra.Core.DomainPump.{DomainPump, domain_index, is_err_empty}
use esp8266_event_driven_fra.Core.SystemPump.State.{
  SystemPump, Report, Stats, zero_report, domain_count, cursor_advance, pump_at, pending,
  bound_count, record_pending_high_watermark, record_call_maxima,
}

-- The variables of the function, with what it changes.
pub record Frame (S : Type 0) : Type 0 where
  pub sys : System S
  pub pump : SystemPump
  pub report : Report
  pub remaining : ℕ
  pub progressed : Bool
  pub made_progress : Bool

abbrev begin_run : ℕ → Stats → Stats
begin_run budget st = record st {
  run_calls = inc32 st.run_calls;
  last_turn_budget = budget;
  last_turns_processed = 0;
}

-- What a turn of a domain adds to the report, and to the counters but for the turns.
abbrev count_turn : DomainPump.Report → Report → Report
count_turn rep r = record r {
  domains_pumped = inc32 r.domains_pumped;
  messages_processed = add32 r.messages_processed rep.processed;
  turns_processed = inc32 r.turns_processed;
}

abbrev count_messages : DomainPump.Report → Stats → Stats
count_messages rep st = record st {
  domains_pumped = inc32 st.domains_pumped;
  messages_processed = add32 st.messages_processed rep.processed;
}

module _ {S : Type 0} where
  abbrev pub count_examined : Frame S → Frame S
  count_examined f = record f {
    report = record (f.report) { domains_examined = inc32 f.report.domains_examined };
  }

  -- An early return of the function with a result.
  unfoldable pub leave : Result → Frame S → Option Result × Frame S
  leave rc f =
      let r : Report = record (f.report) {
        pending_after = pending f.pump f.sys;
        stop_result = rc;
      } in
      let st : Stats = record (f.pump.stats) { last_result = rc } in
      (some rc, record f { report = r; pump = record (f.pump) { stats = record_call_maxima r st } })

  abbrev pub turn_to : ℕ → Frame S → Frame S
  turn_to domain f = record f {
    pump = record (f.pump) { stats = record (f.pump.stats) { last_domain = domain } };
    report = record (f.report) { last_domain = domain };
  }

  -- The turn of the domain failed: the counters take one turn, whatever the report holds.
  unfoldable pub leave_failed : Result → DomainPump.Report → Frame S → Option Result × Frame S
  unfolding leave
  leave_failed rc rep f =
      let r = count_turn rep f.report in
      let st = count_messages rep f.pump.stats in
      leave rc (record f {
        report = r;
        pump = record (f.pump) {
          stats = record st {
            turns_processed = add32 st.turns_processed 1;
            last_turns_processed = r.turns_processed;
          };
        };
      })

  -- What the turn of the domain answered, to the end of the body.
  unfoldable pub settle : Result → DomainPump.Report → Frame S → Option Result × Frame S
  unfolding leave_failed
  settle rc rep f =
      if is_err_empty rc then (none, f) else if not (is_ok rc) then leave_failed rc rep f else (
        none,
        record f {
          report = count_turn rep f.report;
          pump = record (f.pump) { stats = count_messages rep f.pump.stats };
          remaining = sub32 f.remaining 1;
          progressed = true;
          made_progress = true;
        },
      )

  -- From the end of the outer loop to the end of the function.
  unfoldable pub finish : Frame S → Result × Report × SystemPump × System S
  finish f =
      let after = pending f.pump f.sys in
      let exhausted = f.made_progress && ((f.remaining == 0) && ltb 0 after) in
      let rc = if f.made_progress then ok else err_state in
      let r : Report = record (f.report) {
        pending_after = after;
        exhausted_turn_budget = exhausted;
        stop_result = if f.made_progress then (if exhausted then ok else err_empty) else err_state;
      } in
      let st : Stats = record (f.pump.stats) {
        turns_processed = add32 f.pump.stats.turns_processed r.turns_processed;
        last_turns_processed = r.turns_processed;
        budget_hits =
            if exhausted then inc32 f.pump.stats.budget_hits else f.pump.stats.budget_hits;
        last_result = rc;
      } in
      (rc, r, record (f.pump) { stats = record_call_maxima r st }, f.sys)

  -- How the function returns.
  unfoldable pub answer : Option Result × Frame S → Result × Report × SystemPump × System S
  unfolding finish
  answer (some rc, f) = (rc, f.report, f.pump, f.sys)
  answer (none, f) = finish f

  -- The frame at the start of the outer loop.
  abbrev pub start_frame : ℕ → SystemPump → System S → Frame S
  start_frame budget pump sys =
      let before = pending pump sys in
      record {
        sys = sys;
        pump = record pump {
          next_domain_index =
              if leb domain_count pump.next_domain_index then 0 else pump.next_domain_index;
          stats = record_pending_high_watermark before (begin_run budget pump.stats);
        };
        report = record zero_report { turn_budget = budget; pending_before = before };
        remaining = budget;
        progressed = false;
        made_progress = false;
      }

  -- No message was pending.
  unfoldable pub run_empty : ℕ → SystemPump → System S → Result × Report × SystemPump × System S
  run_empty budget pump sys =
      let r : Report = record zero_report { turn_budget = budget; stop_result = err_empty } in
      let st = begin_run budget pump.stats in
      let st' : Stats = record st { empty_calls = inc32 st.empty_calls; last_result = err_empty } in
      (err_empty, r, record pump { stats = record_call_maxima r st' }, sys)

module _ {S : Type 0} (handler : Handler S) where
  -- A domain with messages and a budget has its turn.
  unfoldable pub take_turn : ℕ → DomainPump → Frame S → Option Result × Frame S
  unfolding settle
  take_turn index p f =
      let (rc, rep, p', sys) = DomainPump.run handler (DomainPump.default_budget p) p f.sys in
      settle rc rep (
        turn_to (domain_index p.domain) (record f {
          sys = sys;
          pump = record (f.pump) {
            slots = set f.pump.slots index (some p');
            next_domain_index = cursor_advance index;
          };
        }))

  -- The body of the inner loop; none for the next round, some for an early return.
  unfoldable pub visit : ℕ → Frame S → Option Result × Frame S
  unfolding take_turn leave
  visit index f = elim (pump_at f.pump index) [
    | none ↦ (none, f)
    | some p ↦
        if DomainPump.pending p f.sys == 0
        then (none, count_examined f)
        else if DomainPump.default_budget p == 0
        then leave err_contract (turn_to (domain_index p.domain) (count_examined f))
        else take_turn index p (count_examined f)
  ]

  -- The inner loop, by the offsets left. `remaining` is 0 after a round only if that round took the
  -- last turn, which is where the source breaks.
  unfoldable pub pass : ℕ → ℕ → Frame S → Option Result × Frame S
  unfolding visit
  pass zero index f = (none, f)
  pass (suc n) index f =
      let (stop, f₁) = visit index f in
      elim stop [
        | some rc ↦ (some rc, f₁)
        | none ↦ elim (f₁.remaining == 0) [
          | true ↦ (none, f₁)
          | false ↦ pass n (cursor_advance index) f₁
        ]
      ]

  -- The outer loop, on fuel.
  unfoldable pub passes : ℕ → Frame S → Option Result × Frame S
  unfolding pass
  passes zero f = (none, f)
  passes (suc n) f = elim (f.remaining == 0) [
    | true ↦ (none, f)
    | false ↦
        let (stop, f₁) =
          pass domain_count f.pump.next_domain_index (record f { progressed = false }) in
        elim stop [
          | some rc ↦ (some rc, f₁)
          | none ↦ elim f₁.progressed [ false ↦ (none, f₁) | true ↦ passes n f₁ ]
        ]
  ]

  -- `ev_system_pump_run`. Each pass but the last takes a turn: see Stops.antt.
  unfoldable pub run : ℕ → SystemPump → System S → Result × Report × SystemPump × System S
  unfolding passes answer run_empty
  run budget pump sys =
      if budget == 0
      then (err_invalid_arg, zero_report, pump, sys)
      else if bound_count pump == 0
      then (err_state, zero_report, pump, sys)
      else if pending pump sys == 0
      then run_empty budget pump sys
      else answer (passes budget (start_frame budget pump sys))
