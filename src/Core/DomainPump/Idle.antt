-- ===== src/Core/DomainPump/Idle.antt =====
-- A domain pump that stops as empty leaves no message of its domain pending.
use esp8266_event_driven_fra.Prelude.{
  ℕ, zero, suc, ◌+◌, ◌≤◌, ◌<◌, ◌≡◌, ◌≢◌, refl, sym, ◌∙◌, subst, inl, inr, false, Option, none, some,
  arith, ltb, ◌==◌, u32_mod, Bool-cases, Option-cases, ne→==,
}
use esp8266_event_driven_fra.Core.Result.{Result, ok, err_empty}
use esp8266_event_driven_fra.Core.Catalog.{Domain, actor_count}
use esp8266_event_driven_fra.Core.Actor
use esp8266_event_driven_fra.Core.Actor.{
  ActorRuntime, System, Handler, PumpReport, runtime_at, pending_at,
}
use esp8266_event_driven_fra.Core.Actor.Drained.{pending_at_bound}
use esp8266_event_driven_fra.Core.Actor.Answers.{NeverEmpty}
use esp8266_event_driven_fra.Core.DomainPump.State.{
  DomainPump, actor_matches, pending, pending_from, pending_of,
}
use esp8266_event_driven_fra.Core.DomainPump.Passes.{
  Frame, passes, start_frame, finish, answer, run_empty, run,
}
use esp8266_event_driven_fra.Core.DomainPump.Bounds.{Fits, cursor_advance-lt, cursor_reach}
use esp8266_event_driven_fra.Core.DomainPump.Stops.{
  one_pass, one_pass-Advance, one_pass-Fits, one_pass-less, passes-failed,
}
use esp8266_event_driven_fra.Core.DomainPump.Still.{IdleAt, AllIdle, pass-Still}

module _ {S : Type 0} (handler : Handler S) (never : NeverEmpty handler) where
  one_pass-AllIdle :
      (f : Frame S)
      → Fits f
      → (f.remaining == 0) ≡ false
      → f.pump.next_actor_index < actor_count
      → (one_pass handler f).0 ≡ none
      → (one_pass handler f).1.progressed ≡ false
      → AllIdle (one_pass handler f).1.pump.domain (one_pass handler f).1.sys
  unfolding AllIdle
  one_pass-AllIdle f fits left within go stuck =
      let a = one_pass-Advance handler f fits left in
      let start : Frame S = record f { progressed = false } in
      let still =
        pass-Still handler never actor_count f.pump.next_actor_index start fits (ground arith)
          within in
      let same : (one_pass handler f).1.remaining ≡ f.remaining = elim (a.moved go) [
        | inl (_, _, same) ↦ same
        | inr (moved, _, _) ↦ absurd (ground arith)
      ] in
      λ i h.
        let (k, lt, at) = cursor_reach f.pump.next_actor_index i within h in
        rw (a.domain, still.untouched go same)
          (subst (IdleAt f.pump.domain f.sys) at (still.idle go same k lt))

  -- What holds of a domain pump when its outer loop has ended before the budget was used up.
  passes-AllIdle :
      (n : ℕ) (f : Frame S)
      → Fits f
      → f.remaining ≤ n
      → f.pump.next_actor_index < actor_count
      → (passes handler n f).0 ≡ none
      → (passes handler n f).1.remaining ≢ 0
      → AllIdle (passes handler n f).1.pump.domain (passes handler n f).1.sys
  unfolding passes
  passes-AllIdle zero f fits h within = λ _ left. absurd (omega arith)
  passes-AllIdle (suc n) f fits h within = elim (Bool-cases (f.remaining == 0)) [
    | inl used ↦ rw (used, passes) (λ _ left. absurd (ground arith))
    | inr left ↦ elim (Option-cases (one_pass handler f).0) [
      | inr (rc, early) ↦ rw (left, passes, early) (λ go. absurd (cc go))
      | inl go ↦ elim (Bool-cases (one_pass handler f).1.progressed) [
        | inr idle ↦
            rw (left, passes, go, idle) (λ _ _. one_pass-AllIdle f fits left within go idle)
        | inl moved ↦
            let less = one_pass-less handler f fits left go moved in
            rw (left, passes, go, moved)
              (passes-AllIdle n (one_pass handler f).1 (one_pass-Fits handler f fits left go)
                (omega arith) ((one_pass-Advance handler f fits left).cursor within))
      ]
    ]
  ]

module _ {S : Type 0} where
  AllIdle-pending_from :
      (domain : Domain) (sys : System S) (n i : ℕ)
      → i + n ≤ actor_count
      → AllIdle domain sys
      → pending_from domain sys n i 0 ≡ 0
  unfolding pending_from pending_of AllIdle
  AllIdle-pending_from domain sys zero i h idle = refl
  AllIdle-pending_from domain sys (suc n) i h idle =
      let rest = AllIdle-pending_from domain sys n (suc i) (omega arith) idle in
      elim (Bool-cases (actor_matches i domain)) [
        | inr other ↦ rw (other, pending_from, pending_of) rest
        | inl ours ↦ elim (Option-cases (runtime_at sys i)) [
          | inl free ↦ rw (ours, pending_from, pending_of, free) rest
          | inr (rt, e) ↦
              let z : Actor.pending rt ≡ 0 =
                sym (pending_at_bound sys i rt e) ∙ idle i (omega arith) ours in
              rw (ours, pending_from, pending_of, e, z) rest
        ]
      ]

  answer-drained :
      (r : Option Result × Frame S)
      → ((rc : Result) → r.0 ≡ some rc → (rc ≢ ok) × (rc ≢ err_empty))
      → (r.0 ≡ none → r.1.remaining ≢ 0 → AllIdle r.1.pump.domain r.1.sys)
      → let (rc, rep, pump', sys') = answer r in
        rc ≡ ok → rep.stop_result ≡ err_empty → pending pump' sys' ≡ 0
  unfolding answer finish pending
  answer-drained (some rc, g) failed idle = λ fine. absurd ((failed rc refl).0 fine)
  answer-drained (none, g) failed idle = elim (Bool-cases (g.remaining == 0)) [
    | inl used ↦ elim (Bool-cases g.made_progress) [
      | inr stuck ↦ rw (stuck, finish) (λ q. absurd (cc q))
      | inl moved ↦ elim (Bool-cases (ltb 0 (pending g.pump g.sys))) [
        | inl waiting ↦ rw (used, finish, moved, waiting) (λ _ q. absurd (cc q))
        | inr drained ↦ λ _ _. ground arith
      ]
    ]
    | inr left ↦ λ _ _.
        AllIdle-pending_from g.pump.domain g.sys actor_count 0 (omega arith)
          (idle refl (ground arith))
  ]

-- A run of a domain pump whose budget is a word other than 0, with handlers that never answer
-- EV_ERR_EMPTY, that answers ok and says that it stopped as empty leaves no message of its domain
-- pending.
pub run_drained :
    {S : Type 0} (handler : Handler S) (budget : ℕ) (pump : DomainPump) (sys : System S)
    → NeverEmpty handler
    → budget < u32_mod
    → budget ≢ 0
    → let (rc, rep, pump', sys') = run handler budget pump sys in
      rc ≡ ok → rep.stop_result ≡ err_empty → pending pump' sys' ≡ 0
unfolding run run_empty
run_drained handler budget pump sys never word funded =
    let f = start_frame budget pump sys in
    let fits : Fits f = omega arith in
    elim (Bool-cases (pending pump sys == 0)) [
      | inl idle ↦ rw (ne→== budget 0 funded, run, idle) (λ e. absurd (cc e))
      | inr busy ↦
          rw (ne→== budget 0 funded, run, busy)
            (answer-drained (passes handler budget f)
              (passes-failed handler budget f fits (omega arith))
              (passes-AllIdle handler never budget f fits (omega arith)
                (ground (arith, cursor_advance-lt 0))))
    ]
