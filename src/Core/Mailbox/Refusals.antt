-- ===== src/Core/Mailbox/Refusals.antt =====
-- What a push that is not taken leaves behind, whichever of its guards refused it.
use esp8266_event_driven_fra.Prelude.{
  ◌≡◌, ◌≢◌, refl, ◌∙◌, inl, inr, true, false, not, ◌||◌, List, [], ◌∷◌, arith, leb, ◌==◌,
  Bool-cases,
}
use esp8266_event_driven_fra.Core.Result.{Result, ok, is_ok}
use esp8266_event_driven_fra.Core.Catalog.{
  MailboxKind, fifo_8, fifo_16, mailbox_1, lossy_ring_8, coalesced_flag,
}
use esp8266_event_driven_fra.Core.Msg
use esp8266_event_driven_fra.Core.Msg.{Msg, is_storage_none}
use esp8266_event_driven_fra.Core.Mailbox.State.{Mailbox, Stats, retain_for_queue}
use esp8266_event_driven_fra.Core.Mailbox.Push.{
  push, push_kind, push_fifo, push_single, push_lossy, push_flag,
}
use esp8266_event_driven_fra.Core.Mailbox.Queue.{accept}
use esp8266_event_driven_fra.Core.Mailbox.Ring.{IsValid, contents}
use esp8266_event_driven_fra.Core.Mailbox.Pushes.{unchanged}
use esp8266_event_driven_fra.Core.Mailbox.Refine.{push_refines}

module _ {S : Type 0} where
  accept-refused :
      (k : MailboxKind) (q : List (Msg S)) (m : Msg S)
      → (accept k q m).result ≢ ok
      → ((accept k q m).pending ≡ q)
        × ((accept k q m).evicted ≡ [])
        × ((accept k q m).queued ≡ false)
  accept-refused fifo_8 q m h = ground arith
  accept-refused fifo_16 q m h = ground arith
  accept-refused mailbox_1 q m h = absurd (h refl)
  accept-refused lossy_ring_8 [] m h = absurd (h refl)
  accept-refused lossy_ring_8 (x ∷ q) m h = ground arith
  accept-refused coalesced_flag [] m h = ground arith
  accept-refused coalesced_flag (x ∷ q) m h = ground arith

  -- The mailbox as it was, up to its counters.
  Kept : Mailbox S → Result × Mailbox S × S → Type 0
  Kept mb r = (contents r.1 ≡ contents mb) × IsValid r.1

  restat-Kept :
      (mb : Mailbox S) (rc : Result) (s : S) (st : Stats)
      → IsValid mb
      → Kept mb (rc, record mb { stats = st }, s)
  unfolding Kept
  restat-Kept mb rc s st v = let p = unchanged mb rc s s st v in (p.pending, p.valid)

  ungranted-Kept :
      (k : MailboxKind) (mb : Mailbox S) (m : Msg S) (s : S)
      → IsValid mb
      → is_ok (retain_for_queue m s).0 ≡ false
      → Kept mb (push_kind k mb m s)
  unfolding push_kind push_fifo push_single push_lossy push_flag retain_for_queue
  ungranted-Kept fifo_8 mb m s v h = elim (Bool-cases (leb mb.storage_count mb.count)) [
    | inl full ↦ rw full (restat-Kept mb _ _ _ v)
    | inr room ↦ rw (room, h) (restat-Kept mb _ _ _ v)
  ]
  ungranted-Kept fifo_16 mb m s v h = elim (Bool-cases (leb mb.storage_count mb.count)) [
    | inl full ↦ rw full (restat-Kept mb _ _ _ v)
    | inr room ↦ rw (room, h) (restat-Kept mb _ _ _ v)
  ]
  ungranted-Kept mailbox_1 mb m s v h = rw h (restat-Kept mb _ _ _ v)
  ungranted-Kept lossy_ring_8 mb m s v h = rw h (restat-Kept mb _ _ _ v)
  ungranted-Kept coalesced_flag mb m s v h =
      let bad : (not (is_storage_none m.storage) || not (m.payload_size == 0)) ≡ true =
        ground arith in
      rw bad (restat-Kept mb _ _ _ v)

  -- A push into a well-formed mailbox that does not answer ok leaves the pending messages as they
  -- were, in order, and the mailbox well formed, whatever its kind and the reason; and unless the
  -- owner of the payload refused the share, that owner is as it was too.
  pub push_refused :
      (mb : Mailbox S) (m : Msg S) (s : S)
      → IsValid mb
      → (push mb m s).0 ≢ ok
      → let (_, mb', s') = push mb m s in
        (contents mb' ≡ contents mb) × IsValid mb' × ((retain_for_queue m s).0 ≡ ok → s' ≡ s)
  unfolding push Kept
  push_refused mb m s v h = elim (Bool-cases (is_ok (Msg.validate m))) [
    | inl fine ↦ elim (Bool-cases (is_ok (retain_for_queue m s).0)) [
      | inl granted ↦
          let p = push_refines mb m s v (ground arith) (ground arith) in
          let (same, none_lost, not_in) =
            accept-refused mb.kind (contents mb) m (λ e. h (p.result ∙ e)) in
          (p.pending ∙ same, p.valid, λ _. p.owner ∙ rw (none_lost, not_in) refl)
      | inr denied ↦
          rw (fine, push)
            (let k = ungranted-Kept mb.kind mb m s v denied in
              (k.0, k.1, λ e. absurd (ground arith)))
    ]
    | inr bad ↦ rw (bad, push) (let k = restat-Kept mb ok s _ v in (k.0, k.1, λ _. refl))
  ]

  -- A push leaves a well-formed mailbox well formed, whether or not the message is taken.
  pub push-IsValid : (mb : Mailbox S) (m : Msg S) (s : S) → IsValid mb → IsValid (push mb m s).1
  unfolding push Kept
  push-IsValid mb m s v = elim (Bool-cases (is_ok (Msg.validate m))) [
    | inl fine ↦ elim (Bool-cases (is_ok (retain_for_queue m s).0)) [
      | inl granted ↦ (push_refines mb m s v (ground arith) (ground arith)).valid
      | inr denied ↦ rw (fine, push) (ungranted-Kept mb.kind mb m s v denied).1
    ]
    | inr bad ↦ rw (bad, push) (restat-Kept mb ok s _ v).1
  ]
