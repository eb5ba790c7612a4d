-- ===== src/Runtime/Timer/Due.antt =====
-- When timers fire: the wrapping comparison of two times, and what one publish round does.
use esp8266_event_driven_fra.Prelude.{
  ℕ, ◌%◌, ◌+◌, ◌≤◌, ◌<◌, ◌≡◌, ◌↔◌, refl, sym, ◌∙◌, ◌⊎◌, inl, inr, true, none, some, List, [], ◌∷◌,
  arith, ltb, ltb→lt, Bool-cases, add32, sub32, u32_mod,
}
use esp8266_event_driven_fra.Core.Result.{ok, err_not_found}
use esp8266_event_driven_fra.Runtime.Timer.Round.{Round, publish_slots-Round}
use esp8266_event_driven_fra.Runtime.Timer.Service.{
  Slot, Timers, PublishFn, is_due, is_negative, publish_due, best_deadline, next_deadline_ms,
  count_active, pending_count,
}

-- A deadline some delay after a 32-bit time is due exactly from that delay on, across the wrap of
-- the clock, for a delay of at most 2 ^ 31 and a clock read within 2 ^ 31 of that time.
pub is_due_iff :
    (now_ms delay_ms elapsed : ℕ)
    → now_ms < u32_mod
    → delay_ms ≤ 0x80000000
    → elapsed < 0x80000000
    → (is_due (add32 now_ms elapsed) (add32 now_ms delay_ms) ≡ true) ↔ (delay_ms ≤ elapsed)
is_due_iff now_ms delay_ms elapsed h d e = ground arith

-- A publish round with a callback visits the slots in order up to some point: each of these that is
-- active and whose deadline passed at most 2 ^ 31 - 1 ago, across the wrap of the clock, moves on by
-- its period where it is periodic and becomes idle where it is not; the others are as they were. For
-- each that fires and whose event and target are valid, the callback is called once, in order, with
-- the target and a message from the runtime to it that carries the event of the slot and, where that
-- allows a payload in the envelope, the four bytes of its argument. The round reports, and adds to the
-- published counter, how many of these calls answered ok; these are at most as many as it is
-- allowed, and it ends before the last slot only where they are that many.
pub publish_due-fired :
    {S : Type 0} (svc : Timers) (now_ms : ℕ) (publish : PublishFn S) (max_publish : ℕ) (s : S)
    → let (n, svc', s') = publish_due svc now_ms (some publish) max_publish s in
      Round publish now_ms max_publish svc.slots s (n, svc'.slots, s')
      × (svc'.published ≡ (svc.published + n) % 0x100000000)
      × (svc'.scheduled ≡ svc.scheduled)
      × (svc'.cancelled ≡ svc.cancelled)
unfolding publish_due
publish_due-fired svc now_ms publish max_publish s =
    (publish_slots-Round publish now_ms max_publish svc.slots s, refl, refl, refl)

-- How far ahead of `base` a time is.
abbrev pub ahead : ℕ → ℕ → ℕ
ahead base t = sub32 t base

-- Every pending deadline is less than 2 ^ 31 ahead of `base`.
abbrev pub Near : ℕ → List Slot → Type 0
Near base [] = Unit
Near base (slot ∷ slots) =
    (slot.active ≡ true → (slot.deadline_ms < u32_mod) × (ahead base slot.deadline_ms < 0x80000000))
    × Near base slots

abbrev pub NoneEarlier : ℕ → ℕ → List Slot → Type 0
NoneEarlier base t [] = Unit
NoneEarlier base t (slot ∷ slots) =
    (slot.active ≡ true → ahead base t ≤ ahead base slot.deadline_ms) × NoneEarlier base t slots

abbrev pub Pending : ℕ → List Slot → Type 0
Pending t [] = ⊥
Pending t (slot ∷ slots) = ((slot.active ≡ true) × (slot.deadline_ms ≡ t)) ⊎ Pending t slots

sub-negative :
    (base a b : ℕ)
    → base < u32_mod
    → a < u32_mod
    → b < u32_mod
    → ahead base a < 0x80000000
    → ahead base b < 0x80000000
    → is_negative (sub32 a b) ≡ ltb (ahead base a) (ahead base b)
sub-negative base a b h ha hb na nb = ground arith

best_deadline-some :
    (base : ℕ) (slots : List Slot) (b : ℕ)
    → base < u32_mod
    → Near base slots
    → b < u32_mod
    → ahead base b < 0x80000000
    → (t : ℕ) × (best_deadline slots (some b) ≡ some t)
      × (ahead base t ≤ ahead base b)
      × NoneEarlier base t slots
      × ((t ≡ b) ⊎ Pending t slots)
unfolding best_deadline
best_deadline-some base [] b h near hb nb = (b, refl, omega arith, tt, inl refl)
best_deadline-some base (slot ∷ slots) b h near hb nb = elim (Bool-cases slot.active) [
  | inr idle ↦
      let (t, e, le, early, from) = best_deadline-some base slots b h near.1 hb nb in
      (
        t,
        rw (idle, best_deadline) e,
        le,
        (λ busy. absurd (cc (busy, idle)), early),
        elim from [ inl x ↦ inl x | inr y ↦ inr (inr y) ],
      )
  | inl busy ↦
      let (hs, ns) = near.0 busy in
      elim (Bool-cases (is_negative (sub32 slot.deadline_ms b))) [
        | inl sooner ↦
            let lt =
              ltb→lt _ _ (sym (sub-negative base slot.deadline_ms b h hs hb ns nb) ∙ sooner) in
            let (t, e, le, early, from) =
              best_deadline-some base slots slot.deadline_ms h near.1 hs ns in
            (
              t,
              rw (busy, best_deadline, sooner) e,
              omega arith,
              (λ _. le, early),
              elim from [ inl x ↦ inr (inl (busy, sym x)) | inr y ↦ inr (inr y) ],
            )
        | inr later ↦
            let ge : ahead base b ≤ ahead base slot.deadline_ms =
              let q = sym (sub-negative base slot.deadline_ms b h hs hb ns nb) ∙ later in
              ground arith in
            let (t, e, le, early, from) = best_deadline-some base slots b h near.1 hb nb in
            (
              t,
              rw (busy, best_deadline, later) e,
              le,
              (λ _. omega arith, early),
              elim from [ inl x ↦ inl x | inr y ↦ inr (inr y) ],
            )
      ]
]

best_deadline-none :
    (base : ℕ) (slots : List Slot)
    → base < u32_mod
    → Near base slots
    → ((best_deadline slots none ≡ none) × (count_active slots ≡ 0))
      ⊎ ((t : ℕ) × (best_deadline slots none ≡ some t) × Pending t slots × NoneEarlier base t slots)
unfolding best_deadline
best_deadline-none base [] h near = inl (refl, refl)
best_deadline-none base (slot ∷ slots) h near = elim (Bool-cases slot.active) [
  | inr idle ↦ elim (best_deadline-none base slots h near.1) [
    | inl (e, n) ↦ inl (rw (idle, best_deadline) e, rw idle (omega (arith, n)))
    | inr (t, e, p, early) ↦
        inr (t, rw (idle, best_deadline) e, inr p, (λ busy. absurd (cc (busy, idle)), early))
  ]
  | inl busy ↦
      let (hs, ns) = near.0 busy in
      let (t, e, le, early, from) = best_deadline-some base slots slot.deadline_ms h near.1 hs ns in
      inr (
        t,
        rw (busy, best_deadline) e,
        elim from [ inl x ↦ inl (busy, sym x) | inr y ↦ inr y ],
        (λ _. le, early),
      )
]

-- As long as the pending deadlines are less than 2 ^ 31 ahead of some 32-bit time, also across the
-- wrap of the clock, the next deadline is one of them and none is earlier; without a pending timer
-- there is no deadline.
pub next_deadline_ms-earliest :
    (base : ℕ) (svc : Timers)
    → base < u32_mod
    → Near base svc.slots
    → let (rc, out) = next_deadline_ms svc in
      ((rc ≡ err_not_found) × (out ≡ none) × (pending_count svc ≡ 0))
      ⊎ ((t : ℕ) × (rc ≡ ok) × (out ≡ some t) × Pending t svc.slots × NoneEarlier base t svc.slots)
unfolding next_deadline_ms
next_deadline_ms-earliest base svc h near = elim (best_deadline-none base svc.slots h near) [
  | inl (e, n) ↦ inl (rw (e, next_deadline_ms) (refl, refl, n))
  | inr (t, e, p, early) ↦
      inr (t, rw (e, next_deadline_ms) refl, rw (e, next_deadline_ms) refl, p, early)
]
