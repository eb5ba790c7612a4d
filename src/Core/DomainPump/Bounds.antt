-- ===== src/Core/DomainPump/Bounds.antt =====
-- What one round, one pass and all passes do to the budget of a domain pump.
use esp8266_event_driven_fra.Prelude.{
  ℕ, zero, suc, ◌+◌, ◌-◌, ◌%◌, ◌≤◌, ◌<◌, ◌≡◌, ◌≢◌, refl, sym, ◌∙◌, subst, ◌⊎◌, inl, inr, true,
  Option, none, some, arith, ltb, ◌==◌, u32_mod, Bool-cases, Option-cases, if◌then◌else◌,
}
use esp8266_event_driven_fra.Core.Result.{Result, ok, err_empty}
use esp8266_event_driven_fra.Core.Catalog.{actor_catalog, actor_count}
use esp8266_event_driven_fra.Core.Actor
use esp8266_event_driven_fra.Core.Actor.{ActorRuntime, System, Handler, PumpReport, runtime_at}
use esp8266_event_driven_fra.Core.Actor.Drained.{pump_lem, pending_at_bound}
use esp8266_event_driven_fra.Core.DomainPump.State.{actor_matches, cursor_advance}
use esp8266_event_driven_fra.Core.DomainPump.Passes.{
  Frame, leave, leave_unfunded, leave_failed, settle, count_examined, pump_actor, visit, pass,
  set_last_actor,
}

actor_count-eq : actor_count ≡ 18
unfolding actor_count actor_catalog
actor_count-eq = refl

pub cursor_advance-mod :
    (i : ℕ) → i < actor_count → cursor_advance i actor_count ≡ (i + 1) % actor_count
unfolding cursor_advance
cursor_advance-mod i h = ground (arith, actor_count-eq)

pub cursor_advance-lt : (i : ℕ) → cursor_advance i actor_count < actor_count
unfolding cursor_advance
cursor_advance-lt i = ground (arith, actor_count-eq)

pub cursor_here : (i : ℕ) → i < actor_count → i ≡ (i + 0) % actor_count
cursor_here i h = rw actor_count-eq (omega (arith, actor_count-eq))

-- From any actor on, so many steps forward lead to a given one.
pub cursor_reach :
    (i j : ℕ)
    → i < actor_count
    → j < actor_count
    → (k : ℕ) × (k < actor_count) × ((i + k) % actor_count ≡ j)
cursor_reach i j h h' =
    let e = actor_count-eq in
    ((j + 18 - i) % 18, omega (arith, e), rw actor_count-eq (omega (arith, e)))

module _ {S : Type 0} where
  -- From a frame to a later one: what was processed comes out of what remained, also where the
  -- function returns early, and where it goes on it either made progress and less remains, or it
  -- did not and as much remains.
  pub record Advance (f : Frame S) (r : Option Result × Frame S) : Type 0 where
    pub within : r.1.report.processed ≤ f.remaining + f.report.processed
    pub spent : r.0 ≡ none → r.1.remaining + r.1.report.processed ≡ f.remaining + f.report.processed
    pub moved :
        r.0 ≡ none
        → ((r.1.progressed ≡ f.progressed)
            × (r.1.made_progress ≡ f.made_progress)
            × (r.1.remaining ≡ f.remaining))
          ⊎ ((r.1.progressed ≡ true) × (r.1.made_progress ≡ true) × (r.1.remaining < f.remaining))
    pub domain : r.1.pump.domain ≡ f.pump.domain
    pub cursor : f.pump.next_actor_index < actor_count → r.1.pump.next_actor_index < actor_count
    pub failed : (rc : Result) → r.0 ≡ some rc → (rc ≢ ok) × (rc ≢ err_empty)

  -- The words of the budget do not wrap.
  abbrev pub Fits : Frame S → Type 0
  Fits f = f.remaining + f.report.processed < u32_mod

  pub stay : (f : Frame S) → Advance f (none, f)
  stay f = record {
    within = omega arith;
    spent = λ _. refl;
    moved = λ _. inl (refl, refl, refl);
    domain = refl;
    cursor = λ c. c;
    failed = λ rc e. absurd (cc e);
  }

  pub Advance-le :
      (f : Frame S) (r : Option Result × Frame S)
      → Advance f r
      → r.0 ≡ none
      → r.1.remaining ≤ f.remaining
  Advance-le f r a go = elim (a.moved go) [
    | inl (_, _, same) ↦ omega arith
    | inr (_, _, less) ↦ omega arith
  ]

  settle-Advance :
      (rc : Result) (rep : PumpReport) (f : Frame S)
      → Fits f
      → rep.processed ≤ f.remaining
      → rep.processed ≢ 0
      → Advance f (settle rc rep f)
  unfolding settle leave_failed leave
  settle-Advance rc rep f fits below some_done = record {
    within = ground arith;
    spent = ground arith;
    moved = ground arith;
    domain = ground arith;
    cursor = ground arith;
    failed = ground arith;
  }

  -- An advance after another.
  pub advance_twice :
      (f g : Frame S) (r : Option Result × Frame S)
      → Advance f (none, g)
      → Advance g r
      → Advance f r
  advance_twice f g r p q = record {
    within = omega (arith, q.within, p.spent refl);
    spent = λ go. q.spent go ∙ p.spent refl;
    moved = λ go. elim (q.moved go) [
      | inr (a, b, c) ↦ elim (p.moved refl) [
        | inr (_, _, d) ↦ inr (a, b, omega arith)
        | inl (_, _, d) ↦ inr (a, b, omega arith)
      ]
      | inl (a, b, c) ↦ elim (p.moved refl) [
        | inr (x, y, d) ↦ inr (a ∙ x, b ∙ y, omega arith)
        | inl (x, y, d) ↦ inl (a ∙ x, b ∙ y, c ∙ d)
      ]
    ];
    domain = q.domain ∙ p.domain;
    cursor = λ c. q.cursor (p.cursor c);
    failed = q.failed;
  }

  alike :
      (f g : Frame S)
      → g.remaining ≡ f.remaining
      → g.report.processed ≡ f.report.processed
      → g.progressed ≡ f.progressed
      → g.made_progress ≡ f.made_progress
      → g.pump.domain ≡ f.pump.domain
      → (f.pump.next_actor_index < actor_count → g.pump.next_actor_index < actor_count)
      → Advance f (none, g)
  alike f g a b c d e h = record {
    within = omega arith;
    spent = λ _. omega arith;
    moved = λ _. inl (c, d, a);
    domain = e;
    cursor = h;
    failed = λ rc q. absurd (cc q);
  }

  leave_unfunded-Advance :
      (rt : ActorRuntime S) (f : Frame S) → Advance f (leave_unfunded rt (count_examined f))
  unfolding leave_unfunded leave
  leave_unfunded-Advance rt f = record {
    within = omega arith;
    spent = λ go. absurd (cc go);
    moved = λ go. absurd (cc go);
    domain = refl;
    cursor = λ c. c;
    failed = λ rc e. ground arith;
  }

module _ {S : Type 0} (handler : Handler S) where
  pump_actor-Advance :
      (index : ℕ) (rt : ActorRuntime S) (f : Frame S)
      → Fits f
      → f.remaining ≢ 0
      → runtime_at f.sys index ≡ some rt
      → Actor.pending rt ≢ 0
      → Actor.default_budget rt ≢ 0
      → Advance f (pump_actor handler index rt f)
  unfolding pump_actor
  pump_actor-Advance index rt f fits left e busy funded =
      let budget = Actor.default_budget rt in
      let allowed = if ltb f.remaining budget then f.remaining else budget in
      let bounds : (allowed ≤ f.remaining) × (allowed ≢ 0) = ground arith in
      let (below, some_done, _, _, _) =
        pump_lem handler index allowed f.sys bounds.1
          (λ z. busy (sym (pending_at_bound f.sys index rt e) ∙ z)) in
      let (rc, rep, sys) = Actor.pump handler index allowed f.sys in
      let f₁ : Frame S = record f {
        sys = sys;
        pump = record (f.pump) {
          next_actor_index = cursor_advance index actor_count;
          stats = set_last_actor rt.actor_id f.pump.stats;
        };
        report = record (f.report) { last_actor = rt.actor_id };
      } in
      advance_twice f f₁ _ (alike f f₁ refl refl refl refl refl (λ _. cursor_advance-lt index))
        (settle-Advance rc rep f₁ fits (omega arith) some_done)

  pub visit-Advance :
      (index : ℕ) (f : Frame S) → Fits f → f.remaining ≢ 0 → Advance f (visit handler index f)
  unfolding visit
  visit-Advance index f fits left =
      let examined = alike f (count_examined f) refl refl refl refl refl (λ c. c) in
      elim (Bool-cases (actor_matches index f.pump.domain)) [
        | inr other ↦ rw (other, visit) (stay f)
        | inl ours ↦ elim (Option-cases (runtime_at f.sys index)) [
          | inl free ↦ rw (ours, visit, free) examined
          | inr (rt, e) ↦ elim (Bool-cases (Actor.pending rt == 0)) [
            | inl idle ↦ rw (ours, visit, e, idle) examined
            | inr busy ↦ elim (Bool-cases (Actor.default_budget rt == 0)) [
              | inl unfunded ↦ rw (ours, visit, e, busy, unfunded) (leave_unfunded-Advance rt f)
              | inr funded ↦
                  rw (ours, visit, e, busy, funded)
                    (advance_twice f (count_examined f) _ examined (
                      pump_actor-Advance index rt (count_examined f) fits left e (ground arith)
                        (ground arith)))
            ]
          ]
        ]
      ]

  -- A pass takes at most what remains, also where it returns early, and where it ends it says
  -- whether it made progress; if it did, less remains.
  pub pass-Advance :
      (n index : ℕ) (f : Frame S) → Fits f → f.remaining ≢ 0 → Advance f (pass handler n index f)
  unfolding pass
  pass-Advance zero index f fits left = stay f
  pass-Advance (suc n) index f fits left =
      let a = visit-Advance index f fits left in
      let (stop, f₁) = visit handler index f in
      elim (Option-cases stop) [
        | inr (rc, early) ↦ rw (early, pass) (subst (λ o. Advance f (o, f₁)) early a)
        | inl go ↦
            let a₁ : Advance f (none, f₁) = subst (λ o. Advance f (o, f₁)) go a in
            elim (Bool-cases (f₁.remaining == 0)) [
              | inl used ↦ rw (go, pass, used) a₁
              | inr more ↦
                  rw (go, pass, more)
                    (advance_twice f f₁ _ a₁ (
                      pass-Advance n (cursor_advance index actor_count) f₁
                        (omega (arith, a₁.spent refl)) (ground arith)))
            ]
      ]
