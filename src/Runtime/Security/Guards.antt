-- ===== src/Runtime/Security/Guards.antt =====
-- Which commands pass.
use esp8266_event_driven_fra.Prelude.{
  ℕ, ◌≤◌, ◌<◌, ◌≡◌, ◌≢◌, ◌↔◌, ◌⊎◌, refl, sym, ap, inl, inr, true, Option, none, some, List, [], ◌∷◌,
  arith, ◌==◌, bit_and, add32, u32_mod, inc32, Bool-cases, ==_iff,
}
use esp8266_event_driven_fra.Core.Result.{ok}
use esp8266_event_driven_fra.Runtime.Security.Commands.{
  Policy, Audit, str_equal, authenticate, authorize,
}

str_equal_iff : (xs ys : List ℕ) → (str_equal xs ys ≡ true) ↔ (xs ≡ ys)
unfolding str_equal
str_equal_iff [] [] = ((λ _. refl), λ _. refl)
str_equal_iff [] (y ∷ ys) = ((λ e. absurd (cc e)), λ e. absurd (cc e))
str_equal_iff (x ∷ xs) [] = ((λ e. absurd (cc e)), λ e. absurd (cc e))
str_equal_iff (x ∷ xs) (y ∷ ys) =
    let (there, back) = str_equal_iff xs ys in
    elim (Bool-cases (x == y)) [
      | inl same ↦
          let q : x ≡ y = (==_iff _ _).0 same in
          rw same ((λ e. let r = there e in cc (q, r)), λ e. back (cc e))
      | inr other ↦
          rw other ((λ e. absurd (cc e)), λ e. let q : x ≡ y = cc e in absurd (ground arith))
    ]

authenticate_iff :
    (expected token : Option (List ℕ)) (audit : Audit)
    → ((authenticate expected token audit).0 ≡ ok)
      ↔ ((s : List ℕ) × (expected ≡ some s) × (token ≡ some s))
unfolding authenticate
authenticate_iff none token audit = ((λ e. absurd (cc e)), λ (s, e, _). absurd (cc e))
authenticate_iff (some e) none audit = ((λ q. absurd (cc q)), λ (s, _, q). absurd (cc q))
authenticate_iff (some e) (some t) audit =
    let (there, back) = str_equal_iff e t in
    elim (Bool-cases (str_equal e t)) [
      | inl same ↦ rw same ((λ _. (e, refl, ap some (sym (there same)))), λ _. refl)
      | inr other ↦ rw other (
        (λ q. absurd (cc q)),
        λ (s, p, q). let r : e ≡ t = cc (p, q) in absurd (ground (arith, back r)),
      )
    ]

-- A token authenticates exactly if both it and the expected one are there and they are the same
-- string. A command that was last accepted some time ago, less than 2 ^ 32 ms, also across the wrap
-- of the clock, is authorised exactly if all capabilities it requires are allowed and it is not
-- earlier than its interval after that time; and each authorisation is counted once, as accepted or
-- as rejected.
pub authorize_iff :
    (expected token : Option (List ℕ)) (allowed : ℕ) (p : Policy) (elapsed : ℕ) (audit : Audit)
    → elapsed < u32_mod
    → p.last_accepted_ms < u32_mod
    → let now_ms = add32 p.last_accepted_ms elapsed in
      let (rc, audit') = authorize allowed p now_ms audit in
      (((authenticate expected token audit).0 ≡ ok)
        ↔ ((s : List ℕ) × (expected ≡ some s) × (token ≡ some s)))
      × ((rc ≡ ok) ↔ (
          (bit_and allowed p.required_capability ≡ p.required_capability)
          × (p.min_interval_ms ≤ elapsed)))
      × (((rc ≡ ok) × (audit'.accepted ≡ inc32 audit.accepted) × (audit'.rejected ≡ audit.rejected))
          ⊎ ((rc ≢ ok)
              × (audit'.accepted ≡ audit.accepted)
              × (audit'.rejected ≡ inc32 audit.rejected)))
unfolding authenticate authorize
authorize_iff expected token allowed p elapsed audit h h' =
    (authenticate_iff expected token audit, ground arith, ground arith)
