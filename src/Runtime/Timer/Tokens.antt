-- ===== src/Runtime/Timer/Tokens.antt =====
-- A token names one arming of a slot: what scheduling and cancelling do to it.
use esp8266_event_driven_fra.Prelude.{
  ℕ, zero, suc, ◌+◌, ◌<◌, ◌≡◌, ◌≢◌, if◌then◌else◌, ◌%◌, ◌==◌, refl, sym, ◌∙◌, ◌⊎◌, inl, inr, Bool,
  true, false, none, some, List, [], ◌∷◌, arith, length, get_elem?, set, get_elem?-set_self,
  get_elem?-set_ne, lt-length, Bool-cases, Option-cases, u16_mod,
}
use native.Mathlib.Nat.{zero-add}
use esp8266_event_driven_fra.Core.Result.{ok, err_full, err_not_found}
use esp8266_event_driven_fra.Runtime.Timer.Service.{
  Token, Slot, Timers, capacity, token_valid, next_generation, first_idle, armed, schedule, cancel,
  count_active, pending_count,
}

first_idle-inv :
    (slots : List Slot) (i j : ℕ) (slot : Slot)
    → first_idle slots i ≡ some (j, slot)
    → (k : ℕ) × (j ≡ i + k) × (get_elem? slots k ≡ some slot) × (slot.active ≡ false)
unfolding first_idle
first_idle-inv [] i j slot e = absurd (cc e)
first_idle-inv (x ∷ xs) i j slot e = elim (Bool-cases x.active) [
  | inl busy ↦
      let (k, a, b, c) = first_idle-inv xs (suc i) j slot (ground arith) in
      (suc k, omega arith, b, c)
  | inr idle ↦ (0, ground arith, ground arith, ground arith)
]

first_idle-none :
    (slots : List Slot) (i : ℕ) → first_idle slots i ≡ none → count_active slots ≡ length slots
unfolding first_idle
first_idle-none [] i e = refl
first_idle-none (x ∷ xs) i e = ground (arith, first_idle-none xs (suc i))

count_active-set :
    (slots : List Slot) (i : ℕ) (old new : Slot)
    → get_elem? slots i ≡ some old
    → old.active ≡ false
    → new.active ≡ true
    → count_active (set slots i new) ≡ suc (count_active slots)
count_active-set [] i old new e a b = absurd (cc e)
count_active-set (x ∷ xs) zero old new e a b = ground arith
count_active-set (x ∷ xs) (suc i) old new e a b =
    ground (arith, count_active-set xs i old new e a b)

-- On 16 slots, a delay that is not 0 is refused only when every slot is active; otherwise the
-- token handed out is valid and names a slot that was idle and is now armed as asked, with the next
-- generation and a deadline that far ahead across the wrap of the clock, no other slot changes, and
-- one more timer is pending.
pub schedule_lem :
    (svc : Timers) (now_ms delay_ms target_actor event_id arg0 : ℕ) (periodic : Bool)
    → length svc.slots ≡ capacity
    → 0 < delay_ms
    → let (rc, token, svc') = schedule svc now_ms delay_ms target_actor event_id arg0 periodic in
      ((rc ≡ err_full) × (token ≡ none) × (svc' ≡ svc) × (pending_count svc ≡ capacity))
      ⊎ ((t : Token) × (old : Slot) × (rc ≡ ok)
          × (token ≡ some t)
          × (token_valid svc' t ≡ true)
          × (get_elem? svc.slots t.slot ≡ some old)
          × (old.active ≡ false)
          × (get_elem? svc'.slots t.slot
              ≡ some (record {
                active = true;
                periodic = periodic;
                generation =
                    if (old.generation + 1) % 0x10000 == 0
                    then 1
                    else (old.generation + 1) % 0x10000;
                deadline_ms = (now_ms + delay_ms) % 0x100000000;
                period_ms = delay_ms;
                target_actor = target_actor;
                event_id = event_id;
                arg0 = arg0;
              }))
          × ((k : ℕ) → k ≢ t.slot → get_elem? svc'.slots k ≡ get_elem? svc.slots k)
          × (pending_count svc' ≡ suc (pending_count svc)))
unfolding schedule token_valid
schedule_lem svc now_ms delay_ms target_actor event_id arg0 periodic n pos =
    let nonzero : (delay_ms == 0) ≡ false = ground arith in
    elim (Option-cases (first_idle svc.slots 0)) [
      | inl full ↦
          inl
            (rw (nonzero, schedule, full) (refl, refl, refl, first_idle-none svc.slots 0 full ∙ n))
      | inr ((i, old), found) ↦
          let (k, hk, at_k, idle) = first_idle-inv svc.slots 0 i old found in
          let at : get_elem? svc.slots i ≡ some old = rw (hk, zero-add) at_k in
          let new = armed old now_ms delay_ms target_actor event_id arg0 periodic in
          let there = get_elem?-set_self svc.slots i new old at in
          let range : i < 16 = omega (arith, lt-length svc.slots i old at) in
          inr (
            rw (nonzero, schedule, found)
              (
                record { slot = i; generation = next_generation old.generation },
                old,
                refl,
                refl,
                ground arith,
                at,
                idle,
                there,
                λ k' ne. get_elem?-set_ne svc.slots i k' new (λ q. ne (sym q)),
                count_active-set svc.slots i old new at idle refl,
              ))
    ]

next_generation-ne : (g : ℕ) → g < u16_mod → next_generation g ≢ g
next_generation-ne g h = ground arith

-- Cancelling a valid token of a 16-bit generation succeeds; the token is invalid afterwards, also
-- after its slot is armed again, and cancelling it again answers that it is not found.
pub cancel_lem :
    (svc : Timers) (token : Token)
    → token.generation < u16_mod
    → token_valid svc token ≡ true
    → let (rc, svc') = cancel svc token in
      (rc ≡ ok)
      × (token_valid svc' token ≡ false)
      × ((cancel svc' token).0 ≡ err_not_found)
      × ((slot : Slot) (now_ms delay_ms target_actor event_id arg0 : ℕ) (periodic : Bool)
          → get_elem? svc'.slots token.slot ≡ some slot
          → token_valid
              (record svc' {
                slots =
                    set svc'.slots token.slot
                      (armed slot now_ms delay_ms target_actor event_id arg0 periodic);
              })
              token
            ≡ false)
unfolding cancel token_valid
cancel_lem svc token w e = elim (Option-cases (get_elem? svc.slots token.slot)) [
  | inl missing ↦ absurd (ground arith)
  | inr (slot, at) ↦
      let idle : Slot = record slot { active = false } in
      let there = get_elem?-set_self svc.slots token.slot idle slot at in
      let same : slot.generation ≡ token.generation = ground arith in
      rw (e, cancel, at)
        (
          refl,
          rw (there, token_valid) (ground arith),
          rw (there, token_valid) (ground arith),
          λ slot' now_ms delay_ms target_actor event_id arg0 periodic at'.
              let back : some idle ≡ some slot' = sym there ∙ at' in
              let gen : slot'.generation ≡ token.generation = ground arith in
              rw
                (
                  get_elem?-set_self (set svc.slots token.slot idle) token.slot
                      (armed slot' now_ms delay_ms target_actor event_id arg0 periodic) slot' at',
                  gen,
                )
                (ground (arith, next_generation-ne token.generation w)),
        )
]
