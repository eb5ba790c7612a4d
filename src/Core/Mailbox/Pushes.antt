-- ===== src/Core/Mailbox/Pushes.antt =====
-- One case of the switch of `ev_mailbox_push` after another, against the queue of
-- Core/Mailbox/Queue.antt: the rings.
use esp8266_event_driven_fra.Prelude.{
  ℕ, suc, ◌+◌, ◌-◌, ◌%◌, ◌≤◌, ◌<◌, ◌≡◌, refl, sym, ap, ◌∙◌, inl, inr, true, false, List, [], ◌∷◌,
  ◌++◌, arith, length, set, ltb, leb, inc32, if◌then◌else◌, length-set, Bool-cases, lt→leb, le→leb,
  leb→le, leb-false→lt,
}
use native.Mathlib.Nat.{mod-add-mod, mod-lt}
use esp8266_event_driven_fra.Core.Result.{Result, ok, err_full}
use esp8266_event_driven_fra.Core.Msg
use esp8266_event_driven_fra.Core.Msg.{Msg, zero_msg}
use esp8266_event_driven_fra.Core.Mailbox.State.{
  Mailbox, Stats, slot, index_advance, dispose_slot, store_at, retain_for_queue,
  record_high_watermark,
}
use esp8266_event_driven_fra.Core.Mailbox.Push.{push_fifo, push_lossy, enqueue, drop_oldest}
use esp8266_event_driven_fra.Core.Mailbox.Queue.{
  Outcome, outcome, accept_bounded, accept_lossy, dispose_all,
}
use esp8266_event_driven_fra.Core.Mailbox.Ring.{
  IsValid, contents, length-contents, size_bounds, index_advance-mod, tail_in, next_tail,
  contents-push, contents-pop,
}

module _ {S : Type 0} where
  -- The answer, the pending messages and the payload owner after a push, as the queue has them.
  pub record Pushes (mb : Mailbox S) (o : Outcome S) (s s₁ : S) (r : Result × Mailbox S × S)
      : Type 0 where
    pub result : r.0 ≡ o.result
    pub pending : contents r.1 ≡ o.pending
    pub owner : r.2 ≡ dispose_all o.evicted (if o.queued then s₁ else s)
    pub kind : r.1.kind ≡ mb.kind
    pub valid : IsValid r.1

  pub record_high_watermark-Pushes :
      (mb mb' : Mailbox S) (o : Outcome S) (s s₁ s₂ : S) (rc : Result)
      → Pushes mb o s s₁ (rc, mb', s₂)
      → Pushes mb o s s₁ (rc, record_high_watermark mb', s₂)
  unfolding record_high_watermark
  record_high_watermark-Pushes mb mb' o s s₁ s₂ rc h =
      elim (Bool-cases (ltb mb'.stats.high_watermark mb'.count)) [
        | inl more ↦ rw more (restat (record (mb'.stats) { high_watermark = mb'.count }))
        | inr less ↦ rw less h
      ]
    where
      restat : (st : Stats) → Pushes mb o s s₁ (rc, record mb' { stats = st }, s₂)
      restat st = record {
        result = h.result;
        pending = h.pending;
        owner = h.owner;
        kind = h.kind;
        valid = record {
          sized = h.valid.sized;
          array = h.valid.array;
          masked = h.valid.masked;
          head_in = h.valid.head_in;
          tail_at = h.valid.tail_at;
          within = h.valid.within;
        };
      }

  pub unchanged :
      (mb : Mailbox S) (rc : Result) (s s₁ : S) (st : Stats)
      → IsValid mb
      → Pushes mb (outcome rc (contents mb) [] false) s s₁ (rc, record mb { stats = st }, s)
  unchanged mb rc s s₁ st v = record {
    result = refl;
    pending = refl;
    owner = refl;
    kind = refl;
    valid = record {
      sized = v.sized;
      array = v.array;
      masked = v.masked;
      head_in = v.head_in;
      tail_at = v.tail_at;
      within = v.within;
    };
  }

  pub store_at-ok :
      (mb : Mailbox S) (i : ℕ) (m : Msg S)
      → i < mb.storage_count
      → store_at mb i m ≡ (ok, record mb { storage = set mb.storage i m })
  unfolding store_at
  store_at-ok mb i m h = rw (lt→leb _ _ h)

  pub dispose_slot-ok :
      (mb : Mailbox S) (i : ℕ) (s : S)
      → i < mb.storage_count
      → dispose_slot mb i s ≡ (
        (Msg.dispose (slot mb i) s).0,
        record mb { storage = set mb.storage i Msg.reset },
        (Msg.dispose (slot mb i) s).2,
      )
  unfolding dispose_slot
  dispose_slot-ok mb i s h = rw (lt→leb _ _ h)

  enqueue-Pushes :
      (mb : Mailbox S) (m : Msg S) (s₀ s : S)
      → IsValid mb
      → mb.count < mb.storage_count
      → Pushes mb (outcome ok (contents mb ++ m ∷ []) [] true) s₀ s (enqueue mb m s)
  unfolding enqueue index_advance
  enqueue-Pushes mb m s₀ s v room =
      let b = size_bounds mb v in
      let more : inc32 mb.count ≡ suc mb.count = omega arith in
      rw (store_at-ok mb mb.tail m (tail_in mb v), enqueue)
        (record_high_watermark-Pushes mb _ _ s₀ s s ok (record {
          result = refl;
          pending = rw more (contents-push mb v m room);
          owner = refl;
          kind = refl;
          valid = record {
            sized = v.sized;
            array = length-set mb.storage mb.tail m ∙ v.array;
            masked = v.masked;
            head_in = v.head_in;
            tail_at = rw more (next_tail mb v);
            within = omega arith;
          };
        }))

  pub push_fifo-Pushes :
      (cap : ℕ) (mb : Mailbox S) (m : Msg S) (s : S)
      → IsValid mb
      → mb.storage_count ≡ cap
      → (retain_for_queue m s).0 ≡ ok
      → Pushes mb (accept_bounded cap (contents mb) m) s (retain_for_queue m s).1 (push_fifo mb m s)
  unfolding push_fifo
  push_fifo-Pushes cap mb m s v e h =
      rw (length-contents mb, ← e, h, push_fifo)
        (elim (Bool-cases (leb mb.storage_count mb.count)) [
          | inl full ↦ rw full (unchanged mb err_full s (retain_for_queue m s).1 _ v)
          | inr room ↦
              rw room (enqueue-Pushes mb m s (retain_for_queue m s).1 v (leb-false→lt _ _ room))
        ])

  -- A full ring without its oldest message, whose slot is cleared.
  drop_oldest-full :
      (mb : Mailbox S) (s : S)
      → IsValid mb
      → mb.count ≡ mb.storage_count
      → let (mb₁, s₁) = drop_oldest mb s in
        IsValid mb₁
        × (mb₁.count < mb₁.storage_count)
        × (mb₁.kind ≡ mb.kind)
        × (contents mb ≡ slot mb mb.head ∷ contents mb₁)
        × (s₁ ≡ (Msg.dispose (slot mb mb.head) s).2)
  unfolding drop_oldest
  drop_oldest-full mb s v full =
      let b = size_bounds mb v in
      let n : mb.count ≡ suc (mb.count - 1) = omega arith in
      rw
        (
          dispose_slot-ok mb mb.head s v.head_in,
          le→leb mb.storage_count mb.count (omega arith),
          index_advance-mod mb v mb.head v.head_in,
        )
        (
          record {
            sized = v.sized;
            array = length-set mb.storage mb.head Msg.reset ∙ v.array;
            masked = v.masked;
            head_in = mod-lt (mb.head + 1) b.0;
            tail_at =
                v.tail_at
                ∙ ap (λ t. t % mb.storage_count) (omega arith)
                ∙ sym (mod-add-mod (mb.head + 1) mb.storage_count (mb.count - 1));
            within = omega arith;
          },
          omega arith,
          refl,
          contents-pop mb v (mb.count - 1) Msg.reset n,
          refl,
        )

  accept_lossy-room :
      (cap : ℕ) (q : List (Msg S)) (m : Msg S)
      → length q < cap
      → accept_lossy cap q m ≡ outcome ok (q ++ m ∷ []) [] true
  accept_lossy-room cap [] m h = refl
  accept_lossy-room cap (x ∷ q) m h = rw (lt→leb _ _ h)

  accept_lossy-full :
      (cap : ℕ) (x : Msg S) (q : List (Msg S)) (m : Msg S)
      → cap ≤ length (x ∷ q)
      → accept_lossy cap (x ∷ q) m ≡ outcome ok (q ++ m ∷ []) (x ∷ []) true
  accept_lossy-full cap x q m h = rw (le→leb _ _ h)

  pub push_lossy-Pushes :
      (cap : ℕ) (mb : Mailbox S) (m : Msg S) (s : S)
      → IsValid mb
      → mb.storage_count ≡ cap
      → (retain_for_queue m s).0 ≡ ok
      → Pushes mb (accept_lossy cap (contents mb) m) s (retain_for_queue m s).1 (push_lossy mb m s)
  unfolding push_lossy drop_oldest
  push_lossy-Pushes cap mb m s v e h = elim (Bool-cases (leb mb.storage_count mb.count)) [
    | inl full ↦
        let s₁ = (retain_for_queue m s).1 in
        let (v₁, room₁, kind₁, split, owner₁) =
          drop_oldest-full mb s₁ v (let w = leb→le _ _ full in omega (arith, v.within)) in
        let p = enqueue-Pushes (drop_oldest mb s₁).0 m s (drop_oldest mb s₁).1 v₁ room₁ in
        let long = leb→le _ _ full in
        rw
          (
            h,
            push_lossy,
            split,
            accept_lossy-full cap (slot mb mb.head) (contents (drop_oldest mb s₁).0) m
                (omega (arith, ap length split, length-contents mb)),
          )
          (record {
            result = p.result;
            pending = p.pending;
            owner = p.owner ∙ owner₁;
            kind = p.kind ∙ kind₁;
            valid = p.valid;
          })
    | inr room ↦
        let less = leb-false→lt _ _ room in
        rw
          (
            h,
            push_lossy,
            room,
            drop_oldest,
            accept_lossy-room cap (contents mb) m (omega (arith, length-contents mb)),
          )
          (enqueue-Pushes mb m s (retain_for_queue m s).1 v less)
  ]
