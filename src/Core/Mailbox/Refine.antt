-- ===== src/Core/Mailbox/Refine.antt =====
-- `ev_mailbox_push` and `ev_mailbox_pop` implement the queue of Core/Mailbox/Queue.antt.
use esp8266_event_driven_fra.Prelude.{
  ℕ, ◌+◌, ◌%◌, ◌≡◌, ◌≢◌, refl, sym, ap, ◌∙◌, inl, inr, true, not, ◌||◌, List, [], ◌∷◌, arith,
  length, set, ◌==◌, if◌then◌else◌, length-set, Bool-cases, ==_iff,
}
use native.Mathlib.Nat.{mod-one}
use esp8266_event_driven_fra.Core.Result.{ok, err_contract}
use esp8266_event_driven_fra.Core.Catalog.{
  MailboxKind, fifo_8, fifo_16, mailbox_1, lossy_ring_8, coalesced_flag,
}
use esp8266_event_driven_fra.Core.Msg
use esp8266_event_driven_fra.Core.Msg.{Msg, zero_msg, is_storage_none}
use esp8266_event_driven_fra.Core.Mailbox.State.{
  Mailbox, Stats, kind_capacity, slot, retain_for_queue,
}
use esp8266_event_driven_fra.Core.Mailbox.Push.{push, push_kind, push_single, push_flag}
use esp8266_event_driven_fra.Core.Mailbox.Queue.{Outcome, outcome, accept, accept_flag, dispose_all}
use esp8266_event_driven_fra.Core.Mailbox.Ring.{IsValid, contents}
use esp8266_event_driven_fra.Core.Mailbox.Pushes.{
  Pushes, record_high_watermark-Pushes, unchanged, store_at-ok, dispose_slot-ok, push_fifo-Pushes,
  push_lossy-Pushes,
}
use esp8266_event_driven_fra.Core.Mailbox.Ring.{contents-single, contents-nil, contents-one}

module _ {S : Type 0} where
  -- What a mailbox of one slot holds once a message is stored in it.
  single-Pushes :
      (mb : Mailbox S) (buf : List (Msg S)) (o : Outcome S) (m : Msg S) (s s₁ s₂ : S) (n : ℕ)
      (st : Stats)
      → IsValid mb
      → n ≡ 1
      → mb.storage_count ≡ 1
      → length buf ≡ 1
      → o.result ≡ ok
      → o.pending ≡ m ∷ []
      → s₂ ≡ dispose_all o.evicted (if o.queued then s₁ else s)
      → Pushes mb o s s₁ (ok, record mb { storage = set buf 0 m; count = n; stats = st }, s₂)
  single-Pushes mb buf o m s s₁ s₂ n st v n1 one len rc q own = record {
    result = sym rc;
    pending = rw n1 (contents-single mb v buf m one (omega arith) ∙ sym q);
    owner = own;
    kind = refl;
    valid = record {
      sized = v.sized;
      array = length-set buf 0 m ∙ len ∙ sym one;
      masked = v.masked;
      head_in = v.head_in;
      tail_at = rw n1 (v.tail_at ∙ residue);
      within = omega arith;
    };
  }
    where
      residue : (mb.head + mb.count) % mb.storage_count ≡ (mb.head + 1) % mb.storage_count
      residue = rw one (mod-one (mb.head + mb.count) ∙ sym (mod-one (mb.head + 1)))

  push_single-Pushes :
      (mb : Mailbox S) (m : Msg S) (s : S)
      → IsValid mb
      → mb.storage_count ≡ 1
      → (retain_for_queue m s).0 ≡ ok
      → Pushes mb
          (outcome ok (m ∷ []) (contents mb) true)
          s
          (retain_for_queue m s).1
          (push_single mb m s)
  unfolding push_single
  push_single-Pushes mb m s v one h = elim (Bool-cases (mb.count == 0)) [
    | inl idle ↦
        rw
          (
            h,
            push_single,
            idle,
            store_at-ok mb 0 m (omega arith),
            idle,
            contents-nil mb v ((==_iff _ _).0 idle),
          )
          (record_high_watermark-Pushes mb _ _ s _ _ ok
            (single-Pushes mb mb.storage _ m s _ _ _ _ v refl one (v.array ∙ one) refl refl refl))
    | inr full ↦
        let held : mb.count ≢ 0 = ground arith in
        rw
          (
            h,
            push_single,
            full,
            dispose_slot-ok mb 0 (retain_for_queue m s).1 (omega arith),
            store_at-ok (record mb { storage = set mb.storage 0 Msg.reset }) 0 m (omega arith),
            full,
            contents-one mb v one held,
          )
          (record_high_watermark-Pushes mb _ _ s _ _ ok (
            single-Pushes mb (set mb.storage 0 Msg.reset) _ m s _ _ _ _ v (omega (arith, v.within))
              one (length-set mb.storage 0 Msg.reset ∙ v.array ∙ one) refl refl refl))
  ]

  retain_for_queue-empty :
      (m : Msg S) (s : S) → is_storage_none m.storage ≡ true → (retain_for_queue m s).1 ≡ s
  unfolding retain_for_queue
  retain_for_queue-empty m s h = ground arith

  push_flag-Pushes :
      (mb : Mailbox S) (m : Msg S) (s s₁ : S)
      → IsValid mb
      → mb.storage_count ≡ 1
      → (is_storage_none m.storage ≡ true → s₁ ≡ s)
      → Pushes mb (accept_flag (contents mb) m) s s₁ (push_flag mb m s)
  unfolding push_flag
  push_flag-Pushes mb m s s₁ v one same =
      elim (Bool-cases (not (is_storage_none m.storage) || not (m.payload_size == 0))) [
        | inl bad ↦ rw bad (unchanged mb err_contract s s₁ _ v)
        | inr good ↦ elim (Bool-cases (mb.count == 0)) [
          | inl idle ↦
              rw
                (
                  good,
                  idle,
                  store_at-ok mb 0 m (omega arith),
                  contents-nil mb v ((==_iff _ _).0 idle),
                )
                (record_high_watermark-Pushes mb _ _ s _ _ ok (
                  single-Pushes mb mb.storage _ m s _ _ _ _ v refl one (v.array ∙ one) refl refl
                    (sym (same (ground arith)))))
          | inr full ↦
              let held = contents-one mb v one (ground arith) in
              elim (Bool-cases ((slot mb 0).event_id == m.event_id)) [
                | inl hit ↦ rw (good, full, held, hit) (rw (← held) (unchanged mb ok s s₁ _ v))
                | inr miss ↦
                    rw (good, full, held, miss) (rw (← held) (unchanged mb err_contract s s₁ _ v))
              ]
        ]
      ]

  push_kind-Pushes :
      (k : MailboxKind) (mb : Mailbox S) (m : Msg S) (s : S)
      → IsValid mb
      → mb.kind ≡ k
      → (retain_for_queue m s).0 ≡ ok
      → Pushes mb (accept k (contents mb) m) s (retain_for_queue m s).1 (push_kind k mb m s)
  unfolding push_kind
  push_kind-Pushes fifo_8 mb m s v e h =
      push_fifo-Pushes 8 mb m s v (v.sized ∙ ap kind_capacity e) h
  push_kind-Pushes fifo_16 mb m s v e h =
      push_fifo-Pushes 16 mb m s v (v.sized ∙ ap kind_capacity e) h
  push_kind-Pushes mailbox_1 mb m s v e h =
      push_single-Pushes mb m s v (v.sized ∙ ap kind_capacity e) h
  push_kind-Pushes lossy_ring_8 mb m s v e h =
      push_lossy-Pushes 8 mb m s v (v.sized ∙ ap kind_capacity e) h
  push_kind-Pushes coalesced_flag mb m s v e h =
      push_flag-Pushes mb m s (retain_for_queue m s).1 v (v.sized ∙ ap kind_capacity e)
        (retain_for_queue-empty m s)

  -- A push into a well-formed mailbox, of a message that validates and whose share (if it needs
  -- one) its owner grants, leaves a well-formed mailbox that holds what the queue of its kind
  -- holds, answers as that queue does, and disposes of exactly the messages that the queue gives
  -- up.
  pub push_refines :
      (mb : Mailbox S) (m : Msg S) (s : S)
      → IsValid mb
      → Msg.validate m ≡ ok
      → (retain_for_queue m s).0 ≡ ok
      → Pushes mb (accept mb.kind (contents mb) m) s (retain_for_queue m s).1 (push mb m s)
  unfolding push
  push_refines mb m s v fine granted = rw fine (push_kind-Pushes mb.kind mb m s v refl granted)
