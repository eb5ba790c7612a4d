-- ===== src/Runtime/Security/Commands.antt =====
-- The operations of runtime/src/ev_command_security.c. A string is the list of its bytes before the
-- terminator; NULL is none. The audit record, which the source fills where it is there, always is.
use esp8266_event_driven_fra.Prelude.{
  ℕ, Bool, true, false, not, ◌&&◌, Option, none, some, List, [], ◌∷◌, ltb, ◌==◌, if◌then◌else◌,
  inc32, sub32, bit_and,
}
use esp8266_event_driven_fra.Core.Result.{Result, ok, err_auth, err_policy}

pub record Policy : Type 0 where
  pub required_capability : ℕ
  pub min_interval_ms : ℕ
  pub last_accepted_ms : ℕ
  pub replay_protection_enabled : Bool

pub record Audit : Type 0 where
  pub accepted : ℕ
  pub rejected : ℕ
  pub auth_failed : ℕ
  pub authz_failed : ℕ
  pub rate_limited : ℕ
  pub replay_rejected : ℕ

-- `ev_str_equal`
unfoldable pub str_equal : List ℕ → List ℕ → Bool
str_equal [] [] = true
str_equal [] (y ∷ ys) = false
str_equal (x ∷ xs) [] = false
str_equal (x ∷ xs) (y ∷ ys) = let rest = str_equal xs ys in if x == y then rest else false

abbrev refuse : Audit → Audit
refuse audit = record audit { rejected = inc32 audit.rejected }

-- `ev_command_authenticate`, with the token that the port expects.
unfoldable pub authenticate : Option (List ℕ) → Option (List ℕ) → Audit → Result × Audit
unfolding str_equal
authenticate expected token audit =
    let failed : Result × Audit =
      (err_auth, refuse (record audit { auth_failed = inc32 audit.auth_failed })) in
    elim expected [
      | none ↦ failed
      | some e ↦ elim token [
        | none ↦ failed
        | some t ↦ if str_equal e t then (ok, audit) else failed
      ]
    ]

-- `ev_command_authorize`, with the capabilities that are allowed.
unfoldable pub authorize : ℕ → Policy → ℕ → Audit → Result × Audit
authorize allowed policy now_ms audit =
    if not (bit_and allowed policy.required_capability == policy.required_capability)
    then (err_auth, refuse (record audit { authz_failed = inc32 audit.authz_failed }))
    else if not (policy.min_interval_ms == 0)
        && ltb (sub32 now_ms policy.last_accepted_ms) policy.min_interval_ms
    then (err_policy, refuse (record audit { rate_limited = inc32 audit.rate_limited }))
    else (ok, record audit { accepted = inc32 audit.accepted })
