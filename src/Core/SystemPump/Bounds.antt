-- ===== src/Core/SystemPump/Bounds.antt =====
-- What one round and one pass do to the turns of a system pump.
use esp8266_event_driven_fra.Prelude.{
  ℕ, ◌+◌, ◌≤◌, ◌<◌, ◌≡◌, ◌≢◌, refl, ◌∙◌, ◌⊎◌, inl, inr, true, Option, none, some, List, arith, ◌==◌,
  get_or, u32_mod, Bool-cases, Option-cases, ==_iff, set,
}
use esp8266_event_driven_fra.Core.Result.{Result, ok, err_empty}
use esp8266_event_driven_fra.Core.Actor.{System, Handler}
use esp8266_event_driven_fra.Core.DomainPump
use esp8266_event_driven_fra.Core.DomainPump.{DomainPump, domain_index, is_err_empty}
use esp8266_event_driven_fra.Core.DomainPump.Stops.{run-result}
use esp8266_event_driven_fra.Core.DomainPump.Budget.{default_budget-word}
use esp8266_event_driven_fra.Core.SystemPump.State.{domain_count, cursor_advance, pump_at}
use esp8266_event_driven_fra.Core.SystemPump.Passes.{
  Frame, leave, leave_failed, settle, count_examined, turn_to, take_turn, visit,
}

module _ {S : Type 0} where
  -- The same system, pumps of the domains and turns.
  abbrev pub Same : Frame S → Frame S → Type 0
  Same f g =
      (g.progressed ≡ f.progressed)
      × (g.made_progress ≡ f.made_progress)
      × (g.remaining ≡ f.remaining)
      × (g.sys ≡ f.sys)
      × (g.pump.slots ≡ f.pump.slots)

  -- From a frame to a later one: each turn comes out of those that remained, also where the
  -- function returns early, and where it goes on it either took a turn or changed nothing.
  pub record Advance (f : Frame S) (r : Option Result × Frame S) : Type 0 where
    pub within : r.1.report.turns_processed ≤ f.remaining + f.report.turns_processed
    pub spent :
        r.0 ≡ none
        → r.1.remaining + r.1.report.turns_processed ≡ f.remaining + f.report.turns_processed
    pub moved :
        r.0 ≡ none
        → Same f r.1
          ⊎ ((r.1.progressed ≡ true) × (r.1.made_progress ≡ true) × (r.1.remaining < f.remaining))
    pub cursor : f.pump.next_domain_index < domain_count → r.1.pump.next_domain_index < domain_count
    pub failed : (rc : Result) → r.0 ≡ some rc → rc ≢ ok

  abbrev pub Fits : Frame S → Type 0
  Fits f = f.remaining + f.report.turns_processed < u32_mod

  -- A domain without a message to handle.
  abbrev pub IdleAt : List (Option DomainPump) → System S → ℕ → Type 0
  IdleAt slots sys i =
      (p : DomainPump) → get_or slots i none ≡ some p → DomainPump.pending p sys ≡ 0

  pub alike :
      (f g : Frame S)
      → Same f g
      → g.report.turns_processed ≡ f.report.turns_processed
      → (f.pump.next_domain_index < domain_count → g.pump.next_domain_index < domain_count)
      → Advance f (none, g)
  alike f g (a, b, c, d, e) same h = record {
    within = omega arith;
    spent = λ _. omega arith;
    moved = λ _. inl (a, b, c, d, e);
    cursor = h;
    failed = λ rc q. absurd (cc q);
  }

  pub advance_twice :
      (f g : Frame S) (r : Option Result × Frame S)
      → Advance f (none, g)
      → Advance g r
      → Advance f r
  advance_twice f g r p q = record {
    within = omega (arith, q.within, p.spent refl);
    spent = λ go. q.spent go ∙ p.spent refl;
    moved = λ go. elim (q.moved go) [
      | inr (a, b, c) ↦ elim (p.moved refl) [
        | inr (_, _, d) ↦ inr (a, b, omega arith)
        | inl (_, _, d, _, _) ↦ inr (a, b, omega arith)
      ]
      | inl (a, b, c, s, t) ↦ elim (p.moved refl) [
        | inr (x, y, d) ↦ inr (a ∙ x, b ∙ y, omega arith)
        | inl (x, y, d, u, v) ↦ inl (a ∙ x, b ∙ y, c ∙ d, s ∙ u, t ∙ v)
      ]
    ];
    cursor = λ c. q.cursor (p.cursor c);
    failed = q.failed;
  }

  -- A turn that does not answer EV_ERR_EMPTY counts, or ends the run. The frame of the turn differs
  -- from the one before it in what the turn did.
  settle-Advance :
      (rc : Result) (rep : DomainPump.Report) (f g : Frame S)
      → Fits f
      → f.remaining ≢ 0
      → rc ≢ err_empty
      → g.remaining ≡ f.remaining
      → g.report.turns_processed ≡ f.report.turns_processed
      → g.pump.next_domain_index < domain_count
      → Advance f (settle rc rep g)
        × ((settle rc rep g).0 ≡ none → (settle rc rep g).1.remaining < f.remaining)
  unfolding settle leave_failed leave
  settle-Advance rc rep f g fits left other same turns cursor = (
    record {
      within = ground arith;
      spent = ground arith;
      moved = λ go. inr (ground arith);
      cursor = ground arith;
      failed = ground arith;
    },
    ground arith,
  )

pub cursor_advance-lt : (i : ℕ) → cursor_advance i < domain_count
unfolding cursor_advance
cursor_advance-lt i = ground arith

-- A round as a whole: what it does to the turns and, where as many remain, what it found.
pub record Round {S : Type 0} (index : ℕ) (f : Frame S) (r : Option Result × Frame S) : Type 0 where
  pub advance : Advance f r
  pub idle : r.0 ≡ none → r.1.remaining ≡ f.remaining → IdleAt f.pump.slots f.sys index

module _ {S : Type 0} (handler : Handler S) where
  take_turn-Round :
      (index : ℕ) (p : DomainPump) (f : Frame S)
      → Fits f
      → f.remaining ≢ 0
      → DomainPump.pending p f.sys ≢ 0
      → DomainPump.default_budget p ≢ 0
      → Round index f (take_turn handler index p f)
  unfolding take_turn
  take_turn-Round index p f fits left busy funded =
      let budget = DomainPump.default_budget p in
      let other = run-result handler budget p f.sys (default_budget-word p) funded busy in
      let (rc, rep, p', sys) = DomainPump.run handler budget p f.sys in
      let g : Frame S = turn_to (domain_index p.domain) (record f {
        sys = sys;
        pump = record (f.pump) {
          slots = set f.pump.slots index (some p');
          next_domain_index = cursor_advance index;
        };
      }) in
      let (a, less) =
        settle-Advance rc rep f g fits left other refl refl (cursor_advance-lt index) in
      record { advance = a; idle = λ go same. absurd (omega (arith, less go)) }

  pub visit-Round :
      (index : ℕ) (f : Frame S) → Fits f → f.remaining ≢ 0 → Round index f (visit handler index f)
  unfolding visit leave
  visit-Round index f fits left =
      let examined : Advance f (none, count_examined f) =
        alike f (count_examined f) (refl, refl, refl, refl, refl) refl (λ c. c) in
      elim (Option-cases (pump_at f.pump index)) [
        | inl free ↦
            rw (free, visit)
              (record {
                advance = alike f f (refl, refl, refl, refl, refl) refl (λ c. c);
                idle = λ _ _ p e. absurd (cc (free, e));
              })
        | inr (p, e) ↦ elim (Bool-cases (DomainPump.pending p f.sys == 0)) [
          | inl idle ↦
              rw (e, visit, idle)
                (record {
                  advance = examined;
                  idle = λ _ _ q e'.
                      let same : p ≡ q = cc (e, e') in rw (← same) ((==_iff _ _).0 idle);
                })
          | inr busy ↦ elim (Bool-cases (DomainPump.default_budget p == 0)) [
            | inl unfunded ↦
                rw (e, visit, busy, unfunded)
                  (record {
                    advance = record {
                      within = omega arith;
                      spent = λ go. absurd (cc go);
                      moved = λ go. absurd (cc go);
                      cursor = λ c. c;
                      failed = λ rc q. ground arith;
                    };
                    idle = λ go. absurd (cc go);
                  })
            | inr funded ↦
                let r =
                  take_turn-Round index p (count_examined f) fits left (ground arith)
                    (ground arith) in
                rw (e, visit, busy, funded)
                  (record {
                    advance = advance_twice f (count_examined f) _ examined r.advance;
                    idle = r.idle;
                  })
          ]
        ]
      ]
