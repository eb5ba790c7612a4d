-- ===== src/Core/SystemPump/Turns.antt =====
-- A pass of a system pump: what it does to the turns, and what it found where it took none.
use esp8266_event_driven_fra.Prelude.{
  ℕ, zero, suc, ◌+◌, ◌%◌, ◌≤◌, ◌<◌, ◌≡◌, ◌≢◌, refl, sym, ap, ◌∙◌, subst, inl, inr, Option, none,
  List, arith, ◌==◌, Bool-cases, Option-cases,
}
use native.Mathlib.Nat.{mod-add-mod}
use esp8266_event_driven_fra.Core.Result.{Result}
use esp8266_event_driven_fra.Core.Actor.{System, Handler}
use esp8266_event_driven_fra.Core.DomainPump.{DomainPump}
use esp8266_event_driven_fra.Core.SystemPump.State.{domain_count, cursor_advance}
use esp8266_event_driven_fra.Core.SystemPump.Passes.{Frame, visit, pass}
use esp8266_event_driven_fra.Core.SystemPump.Bounds.{
  Same, Advance, Fits, IdleAt, alike, advance_twice, visit-Round, cursor_advance-lt,
}

cursor_advance-mod : (i : ℕ) → i < domain_count → cursor_advance i ≡ (i + 1) % domain_count
unfolding cursor_advance
cursor_advance-mod i h = ground arith

module _ {S : Type 0} where
  -- The domains visited by so many rounds from one on have nothing to do.
  abbrev pub Around : ℕ → ℕ → List (Option DomainPump) → System S → Type 0
  Around n index slots sys = (k : ℕ) → k < n → IdleAt slots sys ((index + k) % domain_count)

  Around-first :
      (n index : ℕ) (slots : List (Option DomainPump)) (sys : System S)
      → index < domain_count
      → IdleAt slots sys index
      → Around n (cursor_advance index) slots sys
      → Around (suc n) index slots sys
  Around-first n index slots sys h here rest zero _ = subst (IdleAt slots sys) (omega arith) here
  Around-first n index slots sys h here rest (suc k) lt =
      subst (IdleAt slots sys)
        (rw (cursor_advance-mod index h)
          (mod-add-mod (index + 1) domain_count k ∙ ap (λ x. x % domain_count) (omega arith)))
        (rest k (omega arith))

  -- No domain has anything to do.
  unfoldable pub AllIdle : List (Option DomainPump) → System S → Type 0
  AllIdle slots sys = (i : ℕ) → i < domain_count → IdleAt slots sys i

  Advance-le :
      (f : Frame S) (r : Option Result × Frame S)
      → Advance f r
      → r.0 ≡ none
      → r.1.remaining ≤ f.remaining
  Advance-le f r a go = elim (a.moved go) [
    | inl (_, _, same, _, _) ↦ omega arith
    | inr (_, _, less) ↦ omega arith
  ]

  -- What an advance with as many turns left keeps.
  pub Advance-Same :
      (f : Frame S) (r : Option Result × Frame S)
      → Advance f r
      → r.0 ≡ none
      → r.1.remaining ≡ f.remaining
      → Same f r.1
  Advance-Same f r a go e = elim (a.moved go) [
    | inl same ↦ same
    | inr (_, _, less) ↦ absurd (omega arith)
  ]

-- A pass as a whole.
pub record Pass {S : Type 0} (n index : ℕ) (f : Frame S) (r : Option Result × Frame S)
    : Type 0 where
  pub advance : Advance f r
  pub idle : r.0 ≡ none → r.1.remaining ≡ f.remaining → Around n index f.pump.slots f.sys

module _ {S : Type 0} (handler : Handler S) where
  pub pass-Pass :
      (n index : ℕ) (f : Frame S)
      → Fits f
      → f.remaining ≢ 0
      → index < domain_count
      → Pass n index f (pass handler n index f)
  unfolding pass
  pass-Pass zero index f fits left within = record {
    advance = alike f f (refl, refl, refl, refl, refl) refl (λ c. c);
    idle = λ _ _ k h. absurd (omega arith);
  }
  pass-Pass (suc n) index f fits left within =
      let here = visit-Round handler index f fits left in
      let (stop, f₁) = visit handler index f in
      elim (Option-cases stop) [
        | inr (rc, early) ↦
            rw (early, pass)
              (record {
                advance = subst (λ o. Advance f (o, f₁)) early here.advance;
                idle = λ go. absurd (cc go);
              })
        | inl go ↦
            let a : Advance f (none, f₁) = subst (λ o. Advance f (o, f₁)) go here.advance in
            elim (Bool-cases (f₁.remaining == 0)) [
              | inl used ↦
                  rw (go, pass, used)
                    (record { advance = a; idle = λ _ same. absurd (ground arith) })
              | inr more ↦
                  let rest =
                    pass-Pass n (cursor_advance index) f₁ (omega (arith, a.spent refl))
                      (ground arith) (cursor_advance-lt index) in
                  rw (go, pass, more)
                    (record {
                      advance = advance_twice f f₁ _ a rest.advance;
                      idle = λ e same.
                          let kept : f₁.remaining ≡ f.remaining = omega (
                            arith,
                            Advance-le f (none, f₁) a refl,
                            Advance-le f₁ _ rest.advance e,
                          ) in
                          let (_, _, _, system, slots) = Advance-Same f (none, f₁) a refl kept in
                          Around-first n index f.pump.slots f.sys within (here.idle go kept) (
                            subst (λ x. Around n (cursor_advance index) x f.sys) slots
                              (subst (Around n (cursor_advance index) f₁.pump.slots) system
                                (rest.idle e (same ∙ sym kept))));
                    })
            ]
      ]
