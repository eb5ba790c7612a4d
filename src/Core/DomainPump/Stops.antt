-- ===== src/Core/DomainPump/Stops.antt =====
-- The outer loop of `ev_domain_pump_run` ends within its budget, and what a run reports.
use esp8266_event_driven_fra.Prelude.{
  ℕ, zero, suc, ◌+◌, ◌≤◌, ◌<◌, ◌≡◌, ◌≢◌, refl, sym, ◌∙◌, ◌⊎◌, inl, inr, true, false, ◌&&◌, Option,
  none, some, arith, ltb, ◌==◌, u32_mod, Bool-cases, Option-cases, ==_iff, ne→==,
}
use esp8266_event_driven_fra.Core.Result.{Result, ok, err_empty}
use esp8266_event_driven_fra.Core.Catalog.{actor_count}
use esp8266_event_driven_fra.Core.Actor.{System, Handler}
use esp8266_event_driven_fra.Core.DomainPump.State.{DomainPump, pending}
use esp8266_event_driven_fra.Core.DomainPump.Passes.{
  Frame, pass, passes, start_frame, finish, answer, run_empty, run,
}
use esp8266_event_driven_fra.Core.DomainPump.Bounds.{Advance, Fits, pass-Advance}

module _ {S : Type 0} where
  -- What the outer loop does, with enough fuel.
  record Ends (f : Frame S) (r : Option Result × Frame S) : Type 0 where
    within : r.1.report.processed ≤ f.remaining + f.report.processed
    spent : r.0 ≡ none → r.1.remaining + r.1.report.processed ≡ f.remaining + f.report.processed
    ended : r.0 ≡ none → (r.1.remaining ≡ 0) ⊎ (r.1.progressed ≡ false)
    made :
        r.0 ≡ none
        → ((r.1.made_progress ≡ f.made_progress) × (r.1.remaining ≡ f.remaining))
          ⊎ ((r.1.made_progress ≡ true) × (r.1.remaining < f.remaining))
    failed : (rc : Result) → r.0 ≡ some rc → (rc ≢ ok) × (rc ≢ err_empty)

  answer-result :
      (r : Option Result × Frame S)
      → ((rc : Result) → r.0 ≡ some rc → (rc ≢ ok) × (rc ≢ err_empty))
      → (answer r).0 ≢ err_empty
  unfolding answer finish
  answer-result (some rc, g) failed = (failed rc refl).1
  answer-result (none, g) failed = ground arith

  answer-bounds :
      (budget : ℕ) (f : Frame S)
      → f.remaining ≡ budget
      → f.report.processed ≡ 0
      → f.made_progress ≡ false
      → (r : Option Result × Frame S) → Ends f r
      → let (rc, rep, pump', sys') = answer r in
        (rep.processed ≤ budget)
        × (rc ≡ ok → rep.processed ≢ 0)
        × (rc ≡ ok
            → ((rep.stop_result ≡ err_empty) × (rep.exhausted_budget ≡ false))
              ⊎ ((rep.stop_result ≡ ok)
                  × (rep.exhausted_budget ≡ true)
                  × (rep.processed ≡ budget)
                  × (pending pump' sys' ≢ 0)))
  unfolding answer finish pending
  answer-bounds budget f h h₀ unmade (some rc, g) e = (
    omega (arith, e.within),
    λ fine. absurd ((e.failed rc refl).0 fine),
    λ fine. absurd ((e.failed rc refl).0 fine),
  )
  answer-bounds budget f h h₀ unmade (none, g) e =
      let within : g.report.processed ≤ budget = omega (arith, e.within) in
      let spent : g.remaining + g.report.processed ≡ budget = omega (arith, e.spent refl) in
      elim (Bool-cases g.made_progress) [
        | inr idle ↦ rw (idle, finish) (within, (λ q. absurd (cc q)), λ q. absurd (cc q))
        | inl moved ↦
            let less : g.remaining < budget = elim (e.made refl) [
              | inl (same, _) ↦ absurd (ground arith)
              | inr (_, less) ↦ omega (arith, less)
            ] in
            elim (Bool-cases ((g.remaining == 0) && ltb 0 (pending g.pump g.sys))) [
              | inr drained ↦
                  rw (moved, finish, drained) (within, (λ _. omega arith), λ _. inl (refl, refl))
              | inl waiting ↦
                  let facts : (g.remaining ≡ 0) × (pending g.pump g.sys ≢ 0) = ground arith in
                  rw (moved, finish, waiting)
                    (within, (λ _. omega arith), λ _. inr (refl, refl, omega arith, facts.1))
            ]
      ]

module _ {S : Type 0} (handler : Handler S) where
  -- One pass of the outer loop.
  abbrev pub one_pass : Frame S → Option Result × Frame S
  one_pass f = pass handler actor_count f.pump.next_actor_index (record f { progressed = false })

  pub one_pass-Advance :
      (f : Frame S)
      → Fits f
      → (f.remaining == 0) ≡ false
      → Advance (record f { progressed = false }) (one_pass f)
  one_pass-Advance f fits left =
      pass-Advance handler actor_count f.pump.next_actor_index (record f { progressed = false })
        fits (ground arith)

  -- After a pass that made progress, less remains.
  pub one_pass-less :
      (f : Frame S)
      → Fits f
      → (f.remaining == 0) ≡ false
      → (one_pass f).0 ≡ none
      → (one_pass f).1.progressed ≡ true
      → (one_pass f).1.remaining < f.remaining
  one_pass-less f fits left go moved = elim ((one_pass-Advance f fits left).moved go) [
    | inl (same, _, _) ↦ absurd (ground arith)
    | inr (_, _, less) ↦ less
  ]

  pub one_pass-made :
      (f : Frame S)
      → Fits f
      → (f.remaining == 0) ≡ false
      → (one_pass f).0 ≡ none
      → (one_pass f).1.progressed ≡ true
      → (one_pass f).1.made_progress ≡ true
  one_pass-made f fits left go moved = elim ((one_pass-Advance f fits left).moved go) [
    | inl (same, _, _) ↦ absurd (ground arith)
    | inr (_, made, _) ↦ made
  ]

  pub one_pass-Fits :
      (f : Frame S)
      → Fits f
      → (f.remaining == 0) ≡ false
      → (one_pass f).0 ≡ none
      → Fits (one_pass f).1
  one_pass-Fits f fits left go = omega (arith, (one_pass-Advance f fits left).spent go)

  passes-used : (n : ℕ) (f : Frame S) → f.remaining ≡ 0 → passes handler n f ≡ (none, f)
  unfolding passes
  passes-used zero f e = refl
  passes-used (suc n) f e =
      let used : (f.remaining == 0) ≡ true = ground arith in rw (used, passes) refl

  -- Fuel for what remains is enough: more of it makes no difference.
  passes-fuel :
      (n m : ℕ) (f : Frame S)
      → Fits f
      → f.remaining ≤ n
      → f.remaining ≤ m
      → passes handler n f ≡ passes handler m f
  unfolding passes
  passes-fuel zero m f fits h h' = sym (passes-used m f (omega arith))
  passes-fuel (suc n) zero f fits h h' = passes-used (suc n) f (omega arith)
  passes-fuel (suc n) (suc m) f fits h h' = elim (Bool-cases (f.remaining == 0)) [
    | inl used ↦ rw (used, passes) refl
    | inr left ↦ elim (Option-cases (one_pass f).0) [
      | inr (rc, early) ↦ rw (left, passes, early) refl
      | inl go ↦ elim (Bool-cases (one_pass f).1.progressed) [
        | inr idle ↦ rw (left, passes, go, idle) refl
        | inl moved ↦
            let less = one_pass-less f fits left go moved in
            rw (left, passes, go, moved)
              (passes-fuel n m (one_pass f).1 (one_pass-Fits f fits left go) (omega arith)
                (omega arith))
      ]
    ]
  ]

  passes-Ends : (n : ℕ) (f : Frame S) → Fits f → f.remaining ≤ n → Ends f (passes handler n f)
  unfolding passes
  passes-Ends zero f fits h = record {
    within = omega arith;
    spent = λ _. refl;
    ended = λ _. inl (omega arith);
    made = λ _. inl (refl, refl);
    failed = λ rc e. absurd (cc e);
  }
  passes-Ends (suc n) f fits h = elim (Bool-cases (f.remaining == 0)) [
    | inl used ↦
        rw (used, passes)
          (record {
            within = omega arith;
            spent = λ _. refl;
            ended = λ _. inl ((==_iff _ _).0 used);
            made = λ _. inl (refl, refl);
            failed = λ rc e. absurd (cc e);
          })
    | inr left ↦
        let a = one_pass-Advance f fits left in
        elim (Option-cases (one_pass f).0) [
          | inr (rc, early) ↦
              rw (left, passes, early)
                (record {
                  within = a.within;
                  spent = λ e. absurd (cc e);
                  ended = λ e. absurd (cc e);
                  made = λ e. absurd (cc e);
                  failed = λ rc' e. a.failed rc' (early ∙ e);
                })
          | inl go ↦ elim (Bool-cases (one_pass f).1.progressed) [
            | inr idle ↦
                rw (left, passes, go, idle)
                  (record {
                    within = a.within;
                    spent = λ _. a.spent go;
                    ended = λ _. inr idle;
                    made = λ _. elim (a.moved go) [
                      | inl (_, x, y) ↦ inl (x, y)
                      | inr (_, x, y) ↦ inr (x, y)
                    ];
                    failed = λ rc e. absurd (cc e);
                  })
            | inl moved ↦
                let less = one_pass-less f fits left go moved in
                let yes_made = one_pass-made f fits left go moved in
                let sum = a.spent go in
                let r = passes-Ends n (one_pass f).1 (one_pass-Fits f fits left go) (omega arith) in
                rw (left, passes, go, moved)
                  (record {
                    within = omega (arith, r.within);
                    spent = λ e. r.spent e ∙ sum;
                    ended = r.ended;
                    made = λ e. elim (r.made e) [
                      | inl (x, y) ↦ inr (x ∙ yes_made, omega arith)
                      | inr (x, y) ↦ inr (x, omega arith)
                    ];
                    failed = r.failed;
                  })
          ]
        ]
  ]

  pub passes-failed :
      (n : ℕ) (f : Frame S)
      → Fits f
      → f.remaining ≤ n
      → (rc : Result) → (passes handler n f).0 ≡ some rc
      → (rc ≢ ok) × (rc ≢ err_empty)
  passes-failed n f fits h = (passes-Ends n f fits h).failed

module _ {S : Type 0} (handler : Handler S) (budget : ℕ) (pump : DomainPump) (sys : System S) where
  -- The outer loop of a run, for a budget that is a word, needs no more passes than the budget has
  -- messages: any greater number gives the same, and unless the run returns early the loop has then
  -- ended by its own condition, with the budget used up or after a pass without progress.
  pub passes-enough :
      budget < u32_mod
      → (n : ℕ) → budget ≤ n
      → let f = start_frame budget pump sys in
        let (stop, f') = passes handler budget f in
        (passes handler n f ≡ (stop, f'))
        × (stop ≡ none → (f'.remaining ≡ 0) ⊎ (f'.progressed ≡ false))
  passes-enough word n h =
      let f = start_frame budget pump sys in
      (
        passes-fuel handler n budget f (omega arith) h (omega arith),
        (passes-Ends handler budget f (omega arith) (omega arith)).ended,
      )

  -- A run whose budget is a word other than 0 reports at most its budget of messages. If it
  -- answers ok it reports at least one, and either it stopped as empty or, with messages of the
  -- domain still pending, it used its budget up, and reports it as exhausted.
  pub run_bounds :
      budget < u32_mod
      → budget ≢ 0
      → let (rc, rep, pump', sys') = run handler budget pump sys in
        (rep.processed ≤ budget)
        × (rc ≡ ok → rep.processed ≢ 0)
        × (rc ≡ ok
            → ((rep.stop_result ≡ err_empty) × (rep.exhausted_budget ≡ false))
              ⊎ ((rep.stop_result ≡ ok)
                  × (rep.exhausted_budget ≡ true)
                  × (rep.processed ≡ budget)
                  × (pending pump' sys' ≢ 0)))
  unfolding run run_empty
  run_bounds word funded =
      let f = start_frame budget pump sys in
      let ends = passes-Ends handler budget f (omega arith) (omega arith) in
      let b = ne→== budget 0 funded in
      elim (Bool-cases (pending pump sys == 0)) [
        | inl idle ↦ rw (b, run, idle) (omega arith, λ e. absurd (cc e), λ e. absurd (cc e))
        | inr busy ↦ rw (b, run, busy) (answer-bounds budget f refl refl refl _ ends)
      ]

  -- A run with a budget does not answer EV_ERR_EMPTY while a message is pending.
  pub run-result :
      budget < u32_mod
      → budget ≢ 0
      → pending pump sys ≢ 0
      → (run handler budget pump sys).0 ≢ err_empty
  unfolding run
  run-result word funded busy =
      let f = start_frame budget pump sys in
      rw (ne→== budget 0 funded, run, ne→== (pending pump sys) 0 busy)
        (answer-result (passes handler budget f)
          (passes-failed handler budget f (omega arith) (omega arith)))
