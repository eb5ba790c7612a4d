-- ===== src/Core/DomainPump/Still.antt =====
-- A pass of a domain pump that makes no progress found nothing pending.
use esp8266_event_driven_fra.Prelude.{
  ℕ, zero, suc, ◌+◌, ◌%◌, ◌≤◌, ◌<◌, ◌≡◌, ◌≢◌, refl, sym, ap, ◌∙◌, subst, inl, inr, true, Option,
  none, some, arith, ltb, ◌==◌, Bool-cases, Option-cases, ==_iff, if◌then◌else◌,
}
use native.Mathlib.Nat.{mod-add-mod}
use esp8266_event_driven_fra.Core.Result.{Result, err_empty}
use esp8266_event_driven_fra.Core.Catalog.{Domain, actor_count}
use esp8266_event_driven_fra.Core.Actor
use esp8266_event_driven_fra.Core.Actor.{
  ActorRuntime, System, Handler, PumpReport, runtime_at, pending_at,
}
use esp8266_event_driven_fra.Core.Actor.Drained.{pump_lem, pending_at_bound}
use esp8266_event_driven_fra.Core.Actor.Answers.{NeverEmpty, pump-result}
use esp8266_event_driven_fra.Core.DomainPump.State.{actor_matches, cursor_advance}
use esp8266_event_driven_fra.Core.DomainPump.Passes.{
  Frame, leave, leave_unfunded, leave_failed, settle, count_examined, pump_actor, visit, pass,
  set_last_actor,
}
use esp8266_event_driven_fra.Core.DomainPump.Bounds.{
  Advance, Advance-le, Fits, visit-Advance, pass-Advance, cursor_advance-mod, cursor_advance-lt,
  cursor_here,
}

module _ {S : Type 0} where
  -- An actor has nothing to do for a domain.
  abbrev pub IdleAt : Domain → System S → ℕ → Type 0
  IdleAt domain sys i = actor_matches i domain ≡ true → pending_at sys i ≡ 0

  -- From a frame to a later one where as much remains: nothing was done to the system, and what is
  -- said of the actors that were visited holds.
  pub record Still (Visited : Type 0) (f : Frame S) (r : Option Result × Frame S) : Type 0 where
    pub untouched : r.0 ≡ none → r.1.remaining ≡ f.remaining → r.1.sys ≡ f.sys
    pub idle : r.0 ≡ none → r.1.remaining ≡ f.remaining → Visited

  settle-less :
      (rc : Result) (rep : PumpReport) (f : Frame S)
      → Fits f
      → rep.processed ≤ f.remaining
      → rep.processed ≢ 0
      → rc ≢ err_empty
      → (settle rc rep f).0 ≡ none
      → (settle rc rep f).1.remaining < f.remaining
  unfolding settle leave_failed leave
  settle-less rc rep f fits below some_done other go = ground arith

  -- Where as much remains after two advances, as much remained between them.
  all_kept :
      (f g : Frame S) (r : Option Result × Frame S)
      → Advance f (none, g)
      → Advance g r
      → r.0 ≡ none
      → r.1.remaining ≡ f.remaining
      → g.remaining ≡ f.remaining
  all_kept f g r a b e same = omega (arith, Advance-le f (none, g) a refl, Advance-le g r b e)

  -- No actor has anything to do for a domain.
  unfoldable pub AllIdle : Domain → System S → Type 0
  AllIdle domain sys = (i : ℕ) → i < actor_count → IdleAt domain sys i

  -- The actors visited by so many rounds from one on.
  abbrev Around : ℕ → ℕ → Domain → System S → Type 0
  Around n index domain sys = (k : ℕ) → k < n → IdleAt domain sys ((index + k) % actor_count)

  Around-first :
      (n index : ℕ) (domain : Domain) (sys : System S)
      → index < actor_count
      → IdleAt domain sys index
      → Around n (cursor_advance index actor_count) domain sys
      → Around (suc n) index domain sys
  Around-first n index domain sys h here rest zero _ =
      subst (IdleAt domain sys) (cursor_here index h) here
  Around-first n index domain sys h here rest (suc k) lt =
      subst (IdleAt domain sys)
        (rw (cursor_advance-mod index h)
          (mod-add-mod (index + 1) actor_count k ∙ ap (λ x. x % actor_count) (omega arith)))
        (rest k (omega arith))

module _ {S : Type 0} (handler : Handler S) (never : NeverEmpty handler) where
  pump_actor-less :
      (index : ℕ) (rt : ActorRuntime S) (f : Frame S)
      → Fits f
      → f.remaining ≢ 0
      → runtime_at f.sys index ≡ some rt
      → Actor.pending rt ≢ 0
      → Actor.default_budget rt ≢ 0
      → (pump_actor handler index rt f).0 ≡ none
      → (pump_actor handler index rt f).1.remaining < f.remaining
  unfolding pump_actor
  pump_actor-less index rt f fits left e busy funded =
      let budget = Actor.default_budget rt in
      let allowed = if ltb f.remaining budget then f.remaining else budget in
      let bounds : (allowed ≤ f.remaining) × (allowed ≢ 0) = ground arith in
      let waiting : pending_at f.sys index ≢ 0 =
        λ z. busy (sym (pending_at_bound f.sys index rt e) ∙ z) in
      let (below, some_done, _, _, _) = pump_lem handler index allowed f.sys bounds.1 waiting in
      let (rc, rep, sys) = Actor.pump handler index allowed f.sys in
      let f₁ : Frame S = record f {
        sys = sys;
        pump = record (f.pump) {
          next_actor_index = cursor_advance index actor_count;
          stats = set_last_actor rt.actor_id f.pump.stats;
        };
        report = record (f.report) { last_actor = rt.actor_id };
      } in
      settle-less rc rep f₁ fits (omega arith) some_done
        (pump-result handler never index allowed f.sys waiting)

  visit-Still :
      (index : ℕ) (f : Frame S)
      → Fits f
      → f.remaining ≢ 0
      → Still (IdleAt f.pump.domain f.sys index) f (visit handler index f)
  unfolding visit leave_unfunded leave
  visit-Still index f fits left = elim (Bool-cases (actor_matches index f.pump.domain)) [
    | inr other ↦
        rw (other, visit)
          (record { untouched = λ _ _. refl; idle = λ _ _ ours. absurd (ground arith) })
    | inl ours ↦ elim (Option-cases (runtime_at f.sys index)) [
      | inl free ↦
          rw (ours, visit, free)
            (record { untouched = λ _ _. refl; idle = λ _ _ _. rw (free, pending_at) refl })
      | inr (rt, e) ↦ elim (Bool-cases (Actor.pending rt == 0)) [
        | inl idle ↦
            rw (ours, visit, e, idle)
              (record {
                untouched = λ _ _. refl;
                idle = λ _ _ _. pending_at_bound f.sys index rt e ∙ (==_iff _ _).0 idle;
              })
        | inr busy ↦ elim (Bool-cases (Actor.default_budget rt == 0)) [
          | inl unfunded ↦
              rw (ours, visit, e, busy, unfunded)
                (record { untouched = λ go. absurd (cc go); idle = λ go. absurd (cc go) })
          | inr funded ↦
              let less =
                pump_actor-less index rt (count_examined f) fits left e (ground arith)
                  (ground arith) in
              rw (ours, visit, e, busy, funded)
                (record {
                  untouched = λ go same. absurd (omega (arith, less go));
                  idle = λ go same. absurd (omega (arith, less go));
                })
        ]
      ]
    ]
  ]

  pub pass-Still :
      (n index : ℕ) (f : Frame S)
      → Fits f
      → f.remaining ≢ 0
      → index < actor_count
      → Still (Around n index f.pump.domain f.sys) f (pass handler n index f)
  unfolding pass
  pass-Still zero index f fits left within = record {
    untouched = λ _ _. refl;
    idle = λ _ _ k h. absurd (omega arith);
  }
  pass-Still (suc n) index f fits left within =
      let a = visit-Advance handler index f fits left in
      let here = visit-Still index f fits left in
      let (stop, f₁) = visit handler index f in
      elim (Option-cases stop) [
        | inr (rc, early) ↦
            rw (early, pass)
              (record { untouched = λ go. absurd (cc go); idle = λ go. absurd (cc go) })
        | inl go ↦ elim (Bool-cases (f₁.remaining == 0)) [
          | inl used ↦
              rw (go, pass, used)
                (record {
                  untouched = λ _ same. absurd (ground arith);
                  idle = λ _ same. absurd (ground arith);
                })
          | inr more ↦
              let next = cursor_advance index actor_count in
              let fits₁ : Fits f₁ = omega (arith, a.spent go) in
              let left₁ : f₁.remaining ≢ 0 = ground arith in
              let b = pass-Advance handler n next f₁ fits₁ left₁ in
              let rest = pass-Still n next f₁ fits₁ left₁ (cursor_advance-lt index) in
              let kept =
                λ (e : (pass handler n next f₁).0 ≡ none)
                    (same : (pass handler n next f₁).1.remaining ≡ f.remaining).
                  all_kept f f₁ _ (subst (λ o. Advance f (o, f₁)) go a) b e same in
              rw (go, pass, more)
                (record {
                  untouched = λ e same.
                      rest.untouched e (same ∙ sym (kept e same)) ∙ here.untouched go (kept e same);
                  idle = λ e same.
                      Around-first n index f.pump.domain f.sys within (here.idle go (kept e same)) (
                        subst (λ d. Around n next d f.sys) a.domain
                          (subst (Around n next f₁.pump.domain) (here.untouched go (kept e same))
                            (rest.idle e (same ∙ sym (kept e same)))));
                })
        ]
      ]
