-- ===== src/Runtime/Timer/Service.antt =====
-- The slots and the operations of runtime/src/ev_timer_service.c.
--
-- The publish callback acts on a state `S` that the service does not own. The inline payload of a
-- timer message is the four bytes of `arg0`, lowest first as on the target.
use esp8266_event_driven_fra.Prelude.{
  ℕ, suc, ◌+◌, ◌-◌, ◌/◌, ◌%◌, Bool, true, false, not, ◌&&◌, Option, none, some, List, [], ◌∷◌, ltb,
  leb, ◌==◌, if◌then◌else◌, get_elem?, set, replicate, add32, sub32, inc32, u16_mod,
}
use esp8266_event_driven_fra.Core.Result.{
  Result, ok, is_ok, err_invalid_arg, err_full, err_not_found,
}
use esp8266_event_driven_fra.Core.Catalog.{act_runtime}
use esp8266_event_driven_fra.Core.Msg
use esp8266_event_driven_fra.Core.Msg.{Msg, zero_msg}

pub record Token : Type 0 where
  pub slot : ℕ
  pub generation : ℕ

pub record Slot : Type 0 where
  pub active : Bool
  pub periodic : Bool
  pub generation : ℕ
  pub deadline_ms : ℕ
  pub period_ms : ℕ
  pub target_actor : ℕ
  pub event_id : ℕ
  pub arg0 : ℕ

pub record Timers : Type 0 where
  pub slots : List Slot
  pub scheduled : ℕ
  pub cancelled : ℕ
  pub published : ℕ

-- `EV_TIMER_SERVICE_CAPACITY`
abbrev pub capacity : ℕ
capacity = 16

abbrev pub zero_slot : Slot
zero_slot = record {
  active = false;
  periodic = false;
  generation = 0;
  deadline_ms = 0;
  period_ms = 0;
  target_actor = 0;
  event_id = 0;
  arg0 = 0;
}

-- `ev_timer_token_valid`
unfoldable pub token_valid : Timers → Token → Bool
token_valid svc token = ltb token.slot capacity && (elim (get_elem? svc.slots token.slot) [
  | none ↦ false
  | some slot ↦ slot.active && (slot.generation == token.generation)
])

-- The difference of two 32-bit words as `int32_t` is negative from 2 ^ 31 on.
abbrev pub is_negative : ℕ → Bool
is_negative d = leb 0x80000000 d

-- `ev_timer_is_due`
abbrev pub is_due : ℕ → ℕ → Bool
is_due now_ms deadline_ms = not (is_negative (sub32 now_ms deadline_ms))

-- `ev_timer_service_init`
unfoldable pub init : Timers
init = record { slots = replicate capacity zero_slot; scheduled = 0; cancelled = 0; published = 0 }

-- `generation++` on 16 bits, where 0 is left out.
abbrev pub next_generation : ℕ → ℕ
next_generation g = if (g + 1) % u16_mod == 0 then 1 else (g + 1) % u16_mod

-- The first slot that is not active, counted from the given index.
unfoldable pub first_idle : List Slot → ℕ → Option (ℕ × Slot)
first_idle [] i = none
first_idle (slot ∷ slots) i =
    let rest = first_idle slots (suc i) in if slot.active then rest else some (i, slot)

-- What the loop of `ev_timer_schedule` writes into the slot it finds.
abbrev pub armed : Slot → ℕ → ℕ → ℕ → ℕ → ℕ → Bool → Slot
armed slot now_ms delay_ms target_actor event_id arg0 periodic = record {
  active = true;
  periodic = periodic;
  generation = next_generation slot.generation;
  deadline_ms = add32 now_ms delay_ms;
  period_ms = delay_ms;
  target_actor = target_actor;
  event_id = event_id;
  arg0 = arg0;
}

-- `ev_timer_schedule`, of which the one-shot and the periodic form are the two instances; the token
-- is there on success only.
unfoldable pub schedule : Timers → ℕ → ℕ → ℕ → ℕ → ℕ → Bool → Result × Option Token × Timers
schedule svc now_ms delay_ms target_actor event_id arg0 periodic =
    if delay_ms == 0 then (err_invalid_arg, none, svc) else elim (first_idle svc.slots 0) [
      | none ↦ (err_full, none, svc)
      | some (i, slot) ↦ (
        ok,
        some (record { slot = i; generation = next_generation slot.generation }),
        record svc {
          slots = set svc.slots i (armed slot now_ms delay_ms target_actor event_id arg0 periodic);
          scheduled = inc32 svc.scheduled;
        },
      )
    ]

abbrev idle_slot : Option Slot → Slot
idle_slot none = zero_slot
idle_slot (some slot) = record slot { active = false }

-- `ev_timer_cancel`
unfoldable pub cancel : Timers → Token → Result × Timers
cancel svc token = if not (token_valid svc token) then (err_not_found, svc) else (
  ok,
  record svc {
    slots = set svc.slots token.slot (idle_slot (get_elem? svc.slots token.slot));
    cancelled = inc32 svc.cancelled;
  },
)

abbrev pub arg_bytes : ℕ → List ℕ
arg_bytes a = (a % 256) ∷ (a / 256 % 256) ∷ (a / 65536 % 256) ∷ (a / 16777216 % 256) ∷ []

-- What a due slot becomes.
abbrev pub rearmed : Slot → Slot
rearmed slot =
    if slot.periodic
    then record slot { deadline_ms = add32 slot.deadline_ms slot.period_ms }
    else record slot { active = false }

-- The publish callback: target actor, message, state of its owner.
abbrev pub PublishFn : Type 0 → Type 0
PublishFn S = ℕ → Msg S → S → Result × S

module _ {S : Type 0} where
  -- Publishing for one due slot: whether the callback took the message.
  unfoldable pub publish_slot : PublishFn S → Slot → S → Bool × S
  publish_slot publish slot s =
      let (rc, msg) = Msg.init_send zero_msg slot.event_id act_runtime slot.target_actor in
      let (_, msg', s₁) = Msg.set_inline_payload msg (some (arg_bytes slot.arg0)) 4 s in
      let (rc', s₂) = publish slot.target_actor msg' s₁ in
      if is_ok rc then (is_ok rc', s₂) else (false, s)

  -- The loop of `ev_timer_publish_due`, which may still publish `budget` messages: the number
  -- published, the slots and the owner.
  unfoldable pub publish_slots : PublishFn S → ℕ → ℕ → List Slot → S → ℕ × List Slot × S
  publish_slots publish now_ms budget [] s = (0, [], s)
  publish_slots publish now_ms budget (slot ∷ slots) s =
      let due = slot.active && is_due now_ms slot.deadline_ms in
      let (taken, s') = if due then publish_slot publish slot s else (false, s) in
      let (n, slots', s₁) =
        publish_slots publish now_ms (if taken then budget - 1 else budget) slots s' in
      if budget == 0
      then (0, slot ∷ slots, s)
      else ((if taken then n + 1 else n), (if due then rearmed slot else slot) ∷ slots', s₁)

  -- `ev_timer_publish_due`; a NULL callback is `none`.
  unfoldable pub publish_due : Timers → ℕ → Option (PublishFn S) → ℕ → S → ℕ × Timers × S
  publish_due svc now_ms none max_publish s = (0, svc, s)
  publish_due svc now_ms (some publish) max_publish s =
      let (n, slots, s') = publish_slots publish now_ms max_publish svc.slots s in
      (n, record svc { slots = slots; published = add32 svc.published n }, s')

-- The loop of `ev_timer_next_deadline_ms`.
unfoldable pub best_deadline : List Slot → Option ℕ → Option ℕ
best_deadline [] best = best
best_deadline (slot ∷ slots) best = best_deadline slots (
    if slot.active
    then (elim best [
      | none ↦ some slot.deadline_ms
      | some b ↦ if is_negative (sub32 slot.deadline_ms b) then some slot.deadline_ms else some b
    ])
    else best)

-- `ev_timer_next_deadline_ms`
unfoldable pub next_deadline_ms : Timers → Result × Option ℕ
next_deadline_ms svc = elim (best_deadline svc.slots none) [
  | none ↦ (err_not_found, none)
  | some best ↦ (ok, some best)
]

-- `ev_timer_pending_count`
abbrev pub count_active : List Slot → ℕ
count_active [] = 0
count_active (slot ∷ slots) = (if slot.active then 1 else 0) + count_active slots

abbrev pub pending_count : Timers → ℕ
pending_count svc = count_active svc.slots
