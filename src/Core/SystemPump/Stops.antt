-- ===== src/Core/SystemPump/Stops.antt =====
-- The outer loop of `ev_system_pump_run` ends within its turns, and what a run reports.
use esp8266_event_driven_fra.Prelude.{
  ℕ, zero, suc, ◌+◌, ◌-◌, ◌%◌, ◌≤◌, ◌<◌, ◌≡◌, ◌≢◌, refl, sym, ◌∙◌, subst, ◌⊎◌, inl, inr, true,
  false, ◌&&◌, Option, none, some, arith, ltb, ◌==◌, u32_mod, Bool-cases, Option-cases, ==_iff,
  ne→==,
}
use esp8266_event_driven_fra.Core.Result.{Result, ok, err_empty}
use esp8266_event_driven_fra.Core.Actor.{System, Handler}
use esp8266_event_driven_fra.Core.DomainPump
use esp8266_event_driven_fra.Core.DomainPump.{DomainPump}
use esp8266_event_driven_fra.Core.SystemPump.State.{
  SystemPump, domain_count, bound_count, pending, pending_from, pump_at,
}
use esp8266_event_driven_fra.Core.SystemPump.Passes.{
  Frame, pass, passes, start_frame, finish, answer, run_empty, run,
}
use esp8266_event_driven_fra.Core.SystemPump.Bounds.{Fits, IdleAt}
use esp8266_event_driven_fra.Core.SystemPump.Turns.{Pass, AllIdle, Advance-Same, pass-Pass}

module _ {S : Type 0} where
  AllIdle-pending_from :
      (pump : SystemPump) (sys : System S) (n i : ℕ)
      → i + n ≤ domain_count
      → AllIdle pump.slots sys
      → pending_from pump sys n i 0 ≡ 0
  unfolding pending_from AllIdle
  AllIdle-pending_from pump sys zero i h idle = refl
  AllIdle-pending_from pump sys (suc n) i h idle =
      let rest = AllIdle-pending_from pump sys n (suc i) (omega arith) idle in
      elim (Option-cases (pump_at pump i)) [
        | inl free ↦ rw (free, pending_from) rest
        | inr (p, e) ↦
            let z : DomainPump.pending p sys ≡ 0 = idle i (omega arith) p e in
            rw (e, pending_from, z) rest
      ]

  -- What the outer loop does, with enough fuel.
  record Ends (f : Frame S) (r : Option Result × Frame S) : Type 0 where
    within : r.1.report.turns_processed ≤ f.remaining + f.report.turns_processed
    spent :
        r.0 ≡ none
        → r.1.remaining + r.1.report.turns_processed ≡ f.remaining + f.report.turns_processed
    ended :
        r.0 ≡ none
        → (r.1.remaining ≡ 0) ⊎ ((r.1.progressed ≡ false) × AllIdle r.1.pump.slots r.1.sys)
    made :
        r.0 ≡ none
        → ((r.1.made_progress ≡ f.made_progress) × (r.1.remaining ≡ f.remaining))
          ⊎ ((r.1.made_progress ≡ true) × (r.1.remaining < f.remaining))
    failed : (rc : Result) → r.0 ≡ some rc → rc ≢ ok

  -- How a run that used its turns up, or found nothing left to do, returns.
  answer-bounds :
      (budget : ℕ) (f : Frame S)
      → f.remaining ≡ budget
      → f.report.turns_processed ≡ 0
      → f.made_progress ≡ false
      → (r : Option Result × Frame S) → Ends f r
      → let (rc, rep, pump', sys') = answer r in
        (rep.turns_processed ≤ budget)
        × (rc ≡ ok
            → (rep.turns_processed ≢ 0)
              × (((rep.stop_result ≡ err_empty) × (pending pump' sys' ≡ 0))
                  ⊎ ((rep.stop_result ≡ ok)
                      × (rep.exhausted_turn_budget ≡ true)
                      × (rep.turns_processed ≡ budget)
                      × (pending pump' sys' ≢ 0))))
  unfolding answer finish pending
  answer-bounds budget f h h₀ unmade (some rc, g) e =
      (omega (arith, e.within), λ fine. absurd (e.failed rc refl fine))
  answer-bounds budget f h h₀ unmade (none, g) e =
      let within : g.report.turns_processed ≤ budget = omega (arith, e.within) in
      let spent : g.remaining + g.report.turns_processed ≡ budget = omega (arith, e.spent refl) in
      elim (Bool-cases g.made_progress) [
        | inr idle ↦ rw (idle, finish) (within, λ q. absurd (cc q))
        | inl moved ↦
            let less : g.remaining < budget = elim (e.made refl) [
              | inl (same, _) ↦ absurd (ground arith)
              | inr (_, less) ↦ omega (arith, less)
            ] in
            elim (Bool-cases ((g.remaining == 0) && ltb 0 (pending g.pump g.sys))) [
              | inr drained ↦
                  let nothing : pending g.pump g.sys ≡ 0 = elim (e.ended refl) [
                    | inl used ↦ ground arith
                    | inr (_, idle) ↦
                        AllIdle-pending_from g.pump g.sys domain_count 0 (omega arith) idle
                  ] in
                  rw (moved, finish, drained) (within, λ _. (omega arith, inl (refl, nothing)))
              | inl waiting ↦
                  let facts : (g.remaining ≡ 0) × (pending g.pump g.sys ≢ 0) = ground arith in
                  rw (moved, finish, waiting)
                    (within, λ _. (omega arith, inr (refl, refl, omega arith, facts.1)))
            ]
      ]

module _ {S : Type 0} (handler : Handler S) where
  -- One pass of the outer loop.
  abbrev one_pass : Frame S → Option Result × Frame S
  one_pass f = pass handler domain_count f.pump.next_domain_index (record f { progressed = false })

  abbrev InRange : Frame S → Type 0
  InRange f = f.pump.next_domain_index < domain_count

  one_pass-Pass :
      (f : Frame S)
      → Fits f
      → (f.remaining == 0) ≡ false
      → InRange f
      → Pass domain_count f.pump.next_domain_index (record f { progressed = false }) (one_pass f)
  one_pass-Pass f fits left within =
      pass-Pass handler domain_count f.pump.next_domain_index (record f { progressed = false }) fits
        (ground arith) within

  -- After a pass that took no turn, no domain has anything to do.
  one_pass-AllIdle :
      (f : Frame S)
      → Fits f
      → (f.remaining == 0) ≡ false
      → InRange f
      → (one_pass f).0 ≡ none
      → (one_pass f).1.progressed ≡ false
      → AllIdle (one_pass f).1.pump.slots (one_pass f).1.sys
  unfolding AllIdle
  one_pass-AllIdle f fits left within go stuck =
      let p = one_pass-Pass f fits left within in
      let start : Frame S = record f { progressed = false } in
      let same : (one_pass f).1.remaining ≡ f.remaining = elim (p.advance.moved go) [
        | inl (_, _, same, _, _) ↦ same
        | inr (moved, _, _) ↦ absurd (ground arith)
      ] in
      let (_, _, _, system, slots) = Advance-Same start _ p.advance go same in
      λ i h.
        let c = f.pump.next_domain_index in
        rw (system, slots)
          (subst (IdleAt f.pump.slots f.sys) (omega arith)
            (p.idle go same ((i + domain_count - c) % domain_count) (omega arith)))

  passes-used : (n : ℕ) (f : Frame S) → f.remaining ≡ 0 → passes handler n f ≡ (none, f)
  unfolding passes
  passes-used zero f e = refl
  passes-used (suc n) f e =
      let used : (f.remaining == 0) ≡ true = ground arith in rw (used, passes) refl

  one_pass-next :
      (f : Frame S)
      → Fits f
      → (f.remaining == 0) ≡ false
      → InRange f
      → (one_pass f).0 ≡ none
      → (one_pass f).1.progressed ≡ true
      → Fits (one_pass f).1
        × InRange (one_pass f).1
        × ((one_pass f).1.remaining < f.remaining)
        × ((one_pass f).1.made_progress ≡ true)
  one_pass-next f fits left within go moved =
      let a = (one_pass-Pass f fits left within).advance in
      elim (a.moved go) [
        | inl (same, _, _, _, _) ↦ absurd (ground arith)
        | inr (_, made, less) ↦ (omega (arith, a.spent go), a.cursor within, less, made)
      ]

  passes-fuel :
      (n m : ℕ) (f : Frame S)
      → Fits f
      → InRange f
      → f.remaining ≤ n
      → f.remaining ≤ m
      → passes handler n f ≡ passes handler m f
  unfolding passes
  passes-fuel zero m f fits within h h' = sym (passes-used m f (omega arith))
  passes-fuel (suc n) zero f fits within h h' = passes-used (suc n) f (omega arith)
  passes-fuel (suc n) (suc m) f fits within h h' = elim (Bool-cases (f.remaining == 0)) [
    | inl used ↦ rw (used, passes) refl
    | inr left ↦ elim (Option-cases (one_pass f).0) [
      | inr (rc, early) ↦ rw (left, passes, early) refl
      | inl go ↦ elim (Bool-cases (one_pass f).1.progressed) [
        | inr idle ↦ rw (left, passes, go, idle) refl
        | inl moved ↦
            let (fits₁, within₁, less, _) = one_pass-next f fits left within go moved in
            rw (left, passes, go, moved)
              (passes-fuel n m (one_pass f).1 fits₁ within₁ (omega arith) (omega arith))
      ]
    ]
  ]

  passes-Ends :
      (n : ℕ) (f : Frame S) → Fits f → InRange f → f.remaining ≤ n → Ends f (passes handler n f)
  unfolding passes
  passes-Ends zero f fits within h = record {
    within = omega arith;
    spent = λ _. refl;
    ended = λ _. inl (omega arith);
    made = λ _. inl (refl, refl);
    failed = λ rc e. absurd (cc e);
  }
  passes-Ends (suc n) f fits within h = elim (Bool-cases (f.remaining == 0)) [
    | inl used ↦
        rw (used, passes)
          (record {
            within = omega arith;
            spent = λ _. refl;
            ended = λ _. inl ((==_iff _ _).0 used);
            made = λ _. inl (refl, refl);
            failed = λ rc e. absurd (cc e);
          })
    | inr left ↦
        let a = (one_pass-Pass f fits left within).advance in
        elim (Option-cases (one_pass f).0) [
          | inr (rc, early) ↦
              rw (left, passes, early)
                (record {
                  within = a.within;
                  spent = λ e. absurd (cc e);
                  ended = λ e. absurd (cc e);
                  made = λ e. absurd (cc e);
                  failed = λ rc' e. a.failed rc' (early ∙ e);
                })
          | inl go ↦ elim (Bool-cases (one_pass f).1.progressed) [
            | inr idle ↦
                rw (left, passes, go, idle)
                  (record {
                    within = a.within;
                    spent = λ _. a.spent go;
                    ended = λ _. inr (idle, one_pass-AllIdle f fits left within go idle);
                    made = λ _. elim (a.moved go) [
                      | inl (_, x, y, _, _) ↦ inl (x, y)
                      | inr (_, x, y) ↦ inr (x, y)
                    ];
                    failed = λ rc e. absurd (cc e);
                  })
            | inl moved ↦
                let (fits₁, within₁, less, made₁) = one_pass-next f fits left within go moved in
                let sum = a.spent go in
                let r = passes-Ends n (one_pass f).1 fits₁ within₁ (omega arith) in
                rw (left, passes, go, moved)
                  (record {
                    within = omega (arith, r.within);
                    spent = λ e. r.spent e ∙ sum;
                    ended = r.ended;
                    made = λ e. elim (r.made e) [
                      | inl (x, y) ↦ inr (x ∙ made₁, omega arith)
                      | inr (x, y) ↦ inr (x, omega arith)
                    ];
                    failed = r.failed;
                  })
          ]
        ]
  ]

module _ {S : Type 0} (handler : Handler S) (budget : ℕ) (pump : SystemPump) (sys : System S) where
  -- The outer loop of a run, for a number of turns that is a word, needs no more passes than it has
  -- turns: any greater number gives the same, and unless the run returns early the loop has then
  -- ended by its own condition, with the turns used up or after a pass that took none.
  pub turns_enough :
      budget < u32_mod
      → (n : ℕ) → budget ≤ n
      → let f = start_frame budget pump sys in
        let (stop, f') = passes handler budget f in
        (passes handler n f ≡ (stop, f'))
        × (stop ≡ none → (f'.remaining ≡ 0) ⊎ (f'.progressed ≡ false))
  turns_enough word n h =
      let f = start_frame budget pump sys in
      let within : f.pump.next_domain_index < domain_count = ground arith in
      let ends = passes-Ends handler budget f (omega arith) within (omega arith) in
      (
        passes-fuel handler n budget f (omega arith) within h (omega arith),
        λ go. elim (ends.ended go) [ inl used ↦ inl used | inr (stuck, _) ↦ inr stuck ],
      )

  -- A run of the system pump whose number of turns is a word other than 0, whatever the handlers
  -- do, reports at most that many turns. If it answers ok it took at least one turn, and either it
  -- stopped as empty, with no message of a bound domain pending any more, or it used its turns up
  -- with messages still pending, and reports them as exhausted.
  pub run_turns :
      budget < u32_mod
      → budget ≢ 0
      → let (rc, rep, pump', sys') = run handler budget pump sys in
        (rep.turns_processed ≤ budget)
        × (rc ≡ ok
            → (rep.turns_processed ≢ 0)
              × (((rep.stop_result ≡ err_empty) × (pending pump' sys' ≡ 0))
                  ⊎ ((rep.stop_result ≡ ok)
                      × (rep.exhausted_turn_budget ≡ true)
                      × (rep.turns_processed ≡ budget)
                      × (pending pump' sys' ≢ 0))))
  unfolding run run_empty
  run_turns word funded =
      let f = start_frame budget pump sys in
      let within : f.pump.next_domain_index < domain_count = ground arith in
      let ends = passes-Ends handler budget f (omega arith) within (omega arith) in
      let b = ne→== budget 0 funded in
      elim (Bool-cases (bound_count pump == 0)) [
        | inl unbound ↦ rw (b, run, unbound) (omega arith, λ e. absurd (cc e))
        | inr bound ↦ elim (Bool-cases (pending pump sys == 0)) [
          | inl idle ↦ rw (b, run, bound, idle) (omega arith, λ e. absurd (cc e))
          | inr busy ↦ rw (b, run, bound, busy) (answer-bounds budget f refl refl refl _ ends)
        ]
      ]
