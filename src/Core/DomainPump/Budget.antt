-- ===== src/Core/DomainPump/Budget.antt =====
-- The default budget of a domain is a word.
use esp8266_event_driven_fra.Prelude.{ℕ, zero, suc, ◌<◌, inl, inr, arith, u32_mod, Option-cases}
use esp8266_event_driven_fra.Core.Catalog.{Domain, actor_count, actor_meta}
use esp8266_event_driven_fra.Core.DomainPump.State.{DomainPump, budget_from, default_budget}

budget_from-word :
    (domain : Domain) (n i total : ℕ) → total < u32_mod → budget_from domain n i total < u32_mod
unfolding budget_from
budget_from-word domain zero i total h = h
budget_from-word domain (suc n) i total h = elim (Option-cases (actor_meta i)) [
  | inl free ↦ rw (free, budget_from) (budget_from-word domain n (suc i) total h)
  | inr (m, e) ↦ rw (e, budget_from) (budget_from-word domain n (suc i) _ (ground arith))
]

pub default_budget-word : (pump : DomainPump) → default_budget pump < u32_mod
unfolding default_budget
default_budget-word pump = budget_from-word pump.domain actor_count 0 0 (omega arith)
