-- ===== src/Runtime/Timer/Round.antt =====
-- One publish round of runtime/src/ev_timer_service.c, as the slots it visits: which of them call the
-- publish callback, with which message, and what becomes of each.
use esp8266_event_driven_fra.Prelude.{
  ℕ, suc, ◌+◌, ◌-◌, ◌/◌, ◌%◌, ◌≤◌, ◌≡◌, ◌≢◌, refl, ap, ◌⊎◌, inl, inr, Bool, true, false, ◌&&◌, ◌++◌,
  none, some, List, [], ◌∷◌, arith, ltb, ◌==◌, if◌then◌else◌, length, take, drop, replicate,
  Bool-cases, Option-cases, sub32,
}
use esp8266_event_driven_fra.Core.Result.{is_ok}
use esp8266_event_driven_fra.Core.Catalog.{
  PayloadKind, inline, copy_fixed, lease, stream_view, act_runtime, event_id_is_valid,
  actor_id_is_valid, event_meta, actor_none, actor_meta, actor_catalog,
}
use esp8266_event_driven_fra.Core.Msg
use esp8266_event_driven_fra.Core.Msg.{Msg, zero_msg, storage_none, storage_inline}
use esp8266_event_driven_fra.Runtime.Timer.Service.{
  Slot, PublishFn, is_due, publish_slot, publish_slots, arg_bytes,
}

-- An active slot whose deadline is at most 2 ^ 31 - 1 before `now_ms`, across the wrap of the clock.
abbrev pub is_ripe : ℕ → Slot → Bool
is_ripe now_ms slot = slot.active && ltb (sub32 now_ms slot.deadline_ms) 0x80000000

-- A periodic slot moves on by its period, a one-shot one becomes idle.
abbrev pub after_firing : Slot → Slot
after_firing slot =
    if slot.periodic
    then record slot { deadline_ms = (slot.deadline_ms + slot.period_ms) % 0x100000000 }
    else record slot { active = false }

abbrev pub fired : ℕ → List Slot → List Slot
fired now_ms [] = []
fired now_ms (slot ∷ slots) =
    (if is_ripe now_ms slot then after_firing slot else slot) ∷ fired now_ms slots

abbrev pub ripe : ℕ → List Slot → List Slot
ripe now_ms [] = []
ripe now_ms (slot ∷ slots) =
    if is_ripe now_ms slot then slot ∷ ripe now_ms slots else ripe now_ms slots

-- The event of a slot allows a payload in the envelope.
abbrev pub fits_kind : PayloadKind → Bool
fits_kind inline = true
fits_kind copy_fixed = true
fits_kind _ = false

abbrev pub fits_inline : Slot → Bool
fits_inline slot = elim (event_meta slot.event_id) [
  | none ↦ false
  | some e ↦ fits_kind e.payload_kind
]

-- The four bytes of the argument, lowest first, and the rest of the buffer.
abbrev pub payload_of : ℕ → List ℕ
payload_of a =
    (a % 256) ∷ (a / 256 % 256) ∷ (a / 65536 % 256) ∷ (a / 16777216 % 256) ∷ replicate 20 0

none_invalid : actor_id_is_valid actor_none ≡ false
unfolding actor_id_is_valid actor_meta actor_catalog
none_invalid = refl

runtime_valid : actor_id_is_valid act_runtime ≡ true
unfolding actor_id_is_valid actor_meta actor_catalog
runtime_valid = refl

valid-none : (a : ℕ) → actor_id_is_valid a ≡ true → (a == actor_none) ≡ false
valid-none a valid = elim (Bool-cases (a == actor_none)) [
  | inr other ↦ other
  | inl same ↦ let it : a ≡ actor_none = ground arith in absurd (cc (valid, none_invalid, it))
]

module _ {S : Type 0} where
  -- The message of a slot.
  abbrev pub message_of : Slot → Msg S
  message_of slot = record {
    cookie = 0x45564D53;
    event_id = slot.event_id;
    source_actor = act_runtime;
    target_actor = slot.target_actor;
    flags = 0;
    storage = if fits_inline slot then storage_inline else storage_none;
    payload_size = if fits_inline slot then 4 else 0;
    inline_bytes = if fits_inline slot then payload_of slot.arg0 else replicate 24 0;
    external = record {
      payload = none;
      size = 0;
      retain_fn = none;
      release_fn = none;
      lifecycle_ctx = none;
    };
  }

module _ {S : Type 0} (publish : PublishFn S) where
  -- The callback gets the message of a slot whose event and target are valid; whether it took it.
  abbrev pub announce : Slot → S → Bool × S
  announce slot s =
      if event_id_is_valid slot.event_id && actor_id_is_valid slot.target_actor
      then (let (rc, s') = publish slot.target_actor (message_of slot) s in (is_ok rc, s'))
      else (false, s)

  -- The slots are announced in order; how many messages were taken.
  abbrev pub announce_all : List Slot → S → ℕ × S
  announce_all [] s = (0, s)
  announce_all (slot ∷ slots) s =
      let (taken, s₁) = announce slot s in
      let (n, s₂) = announce_all slots s₁ in (if taken then n + 1 else n, s₂)

  -- A round over these slots: those up to a point are visited, the due ones among them fire and
  -- are announced, and the round stops at the end or once it published all it may.
  pub record Round (now_ms budget : ℕ) (slots : List Slot) (s : S) (r : ℕ × List Slot × S)
      : Type 0 where
    pub visited : ℕ
    pub within : visited ≤ length slots
    pub changed : r.1 ≡ fired now_ms (take visited slots) ++ drop visited slots
    pub told : announce_all (ripe now_ms (take visited slots)) s ≡ (r.0, r.2)
    pub bounded : r.0 ≤ budget
    pub complete : (r.0 ≡ budget) ⊎ (visited ≡ length slots)

  is_due-is_ripe :
      (now_ms : ℕ) (slot : Slot)
      → (slot.active && is_due now_ms slot.deadline_ms) ≡ is_ripe now_ms slot
  is_due-is_ripe now_ms slot = ground arith

  -- A fresh message with the argument of a slot as its payload, by the payload kind of its event.
  set_inline_payload-kind :
      (k : PayloadKind) (slot : Slot) (s : S)
      → event_meta slot.event_id ≡ some (record { payload_kind = k })
      → let (rc, m, s') =
          Msg.set_inline_payload
            (record Msg.reset {
              event_id = slot.event_id;
              source_actor = act_runtime;
              target_actor = slot.target_actor;
            })
            (some (arg_bytes slot.arg0))
            4
            s in
        (m ≡ message_of slot) × (s' ≡ s)
  unfolding Msg.set_inline_payload Msg.reset
  set_inline_payload-kind inline slot s e =
      rw (e, Msg.set_inline_payload, message_of, fits_inline) (refl, refl)
  set_inline_payload-kind copy_fixed slot s e =
      rw (e, Msg.set_inline_payload, message_of, fits_inline) (refl, refl)
  set_inline_payload-kind lease slot s e =
      rw (e, Msg.set_inline_payload, message_of, fits_inline) (refl, refl)
  set_inline_payload-kind stream_view slot s e =
      rw (e, Msg.set_inline_payload, message_of, fits_inline) (refl, refl)

  publish_slot-announce : (slot : Slot) (s : S) → publish_slot publish slot s ≡ announce slot s
  unfolding publish_slot Msg.init_send event_id_is_valid
  publish_slot-announce slot s = elim (Bool-cases (actor_id_is_valid slot.target_actor)) [
    | inr closed ↦ rw (closed, publish_slot) (ground arith)
    | inl open_target ↦
        let addressed = valid-none slot.target_actor open_target in
        elim (Option-cases (event_meta slot.event_id)) [
          | inl unknown ↦ rw (unknown, open_target, publish_slot) (ground arith)
          | inr (meta, e) ↦
              let sent = set_inline_payload-kind meta.payload_kind slot s e in
              rw (e, open_target, addressed, publish_slot, runtime_valid, sent.0, sent.1) refl
        ]
  ]

  -- A round that fires a slot first.
  announce-Round :
      (taken : Bool) (now_ms budget : ℕ) (slot : Slot) (slots : List Slot) (s : S)
      (r : ℕ × List Slot × S)
      → budget ≢ 0
      → is_ripe now_ms slot ≡ true
      → (announce slot s).0 ≡ taken
      → Round now_ms (if taken then budget - 1 else budget) slots (announce slot s).1 r
      → Round now_ms budget
          (slot ∷ slots)
          s
          ((if taken then r.0 + 1 else r.0), after_firing slot ∷ r.1, r.2)
  announce-Round true now_ms budget slot slots s r left due call rest = record {
    visited = suc rest.visited;
    within = omega (arith, rest.within);
    changed = rw due (ap (λ q. after_firing slot ∷ q) rest.changed);
    told = rw (due, call) (ap (λ x. (x.0 + 1, x.1)) rest.told);
    bounded = omega (arith, rest.bounded);
    complete = elim rest.complete [ inl all ↦ inl (omega arith) | inr end ↦ inr (ap suc end) ];
  }
  announce-Round false now_ms budget slot slots s r left due call rest = record {
    visited = suc rest.visited;
    within = omega (arith, rest.within);
    changed = rw due (ap (λ q. after_firing slot ∷ q) rest.changed);
    told = rw (due, call) rest.told;
    bounded = rest.bounded;
    complete = elim rest.complete [ inl all ↦ inl all | inr end ↦ inr (ap suc end) ];
  }

  pub publish_slots-Round :
      (now_ms budget : ℕ) (slots : List Slot) (s : S)
      → Round now_ms budget slots s (publish_slots publish now_ms budget slots s)
  unfolding publish_slots
  publish_slots-Round now_ms budget [] s = record {
    visited = 0;
    within = omega arith;
    changed = refl;
    told = refl;
    bounded = omega arith;
    complete = inr refl;
  }
  publish_slots-Round now_ms budget (slot ∷ slots) s = elim (Bool-cases (budget == 0)) [
    | inl spent ↦
        rw (spent, publish_slots)
          (record {
            visited = 0;
            within = omega arith;
            changed = refl;
            told = refl;
            bounded = omega arith;
            complete = inl (ground arith);
          })
    | inr left ↦ elim (Bool-cases (is_ripe now_ms slot)) [
      | inr idle ↦
          let rest = publish_slots-Round now_ms budget slots s in
          rw (left, publish_slots, is_due-is_ripe now_ms slot, idle)
            (record {
              visited = suc rest.visited;
              within = omega (arith, rest.within);
              changed = rw idle (ap (λ q. slot ∷ q) rest.changed);
              told = rw idle rest.told;
              bounded = rest.bounded;
              complete = elim rest.complete [ inl all ↦ inl all | inr end ↦ inr (ap suc end) ];
            })
      | inl due ↦
          let (taken, s₁) = announce slot s in
          rw (left, publish_slots, is_due-is_ripe now_ms slot, due, publish_slot-announce slot s)
            (announce-Round taken now_ms budget slot slots s _ (ground arith) due refl
              (publish_slots-Round now_ms (if taken then budget - 1 else budget) slots s₁))
    ]
  ]
