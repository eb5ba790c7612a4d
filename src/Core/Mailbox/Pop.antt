-- ===== src/Core/Mailbox/Pop.antt =====
-- `ev_mailbox_pop` takes the oldest message of the queue of Core/Mailbox/Queue.antt.
use esp8266_event_driven_fra.Prelude.{
  suc, ◌+◌, ◌-◌, ◌%◌, ◌≡◌, ◌≢◌, refl, sym, ap, ◌∙◌, inl, inr, some, arith, ◌==◌, ring, length-set,
  Bool-cases, ==_iff,
}
use native.Mathlib.Nat.{mod-add-mod, mod-lt, mod-one}
use esp8266_event_driven_fra.Core.Result.{ok}
use esp8266_event_driven_fra.Core.Catalog.{
  MailboxKind, fifo_8, fifo_16, mailbox_1, lossy_ring_8, coalesced_flag,
}
use esp8266_event_driven_fra.Core.Msg
use esp8266_event_driven_fra.Core.Msg.{Msg, zero_msg, is_storage_none}
use esp8266_event_driven_fra.Core.Mailbox.State.{Mailbox, kind_capacity, slot}
use esp8266_event_driven_fra.Core.Mailbox.Drain.{pop, pop_ring, pop_single, pop_kind}
use esp8266_event_driven_fra.Core.Mailbox.Queue.{take_oldest}
use esp8266_event_driven_fra.Core.Mailbox.Ring.{
  IsValid, contents, size_bounds, index_advance-mod, contents-pop,
}
use esp8266_event_driven_fra.Core.Mailbox.Ring.{contents-nil, contents-one}

module _ {S : Type 0} where
  pop_ring-refines :
      (mb : Mailbox S)
      → IsValid mb
      → mb.count ≢ 0
      → ((ok, some (slot mb mb.head), contents (pop_ring mb)) ≡ take_oldest (contents mb))
        × IsValid (pop_ring mb)
        × ((pop_ring mb).kind ≡ mb.kind)
  unfolding pop_ring
  pop_ring-refines mb v h =
      let b = size_bounds mb v in
      let n : mb.count ≡ suc (mb.count - 1) = omega arith in
      rw (contents-pop mb v (mb.count - 1) Msg.reset n, index_advance-mod mb v mb.head v.head_in)
        (
          refl,
          record {
            sized = v.sized;
            array = length-set mb.storage mb.head Msg.reset ∙ v.array;
            masked = v.masked;
            head_in = mod-lt (mb.head + 1) b.0;
            tail_at =
                v.tail_at
                ∙ ap (λ t. t % mb.storage_count) (omega arith)
                ∙ sym (mod-add-mod (mb.head + 1) mb.storage_count (mb.count - 1));
            within = omega (arith, v.within);
          },
          refl,
        )

  pop_single-refines :
      (mb : Mailbox S)
      → IsValid mb
      → mb.storage_count ≡ 1
      → mb.count ≢ 0
      → ((ok, some (slot mb 0), contents (pop_single mb)) ≡ take_oldest (contents mb))
        × IsValid (pop_single mb)
        × ((pop_single mb).kind ≡ mb.kind)
  unfolding pop_single ring
  pop_single-refines mb v one h = rw (contents-one mb v one h) (
    refl,
    record {
      sized = v.sized;
      array = length-set mb.storage 0 Msg.reset ∙ v.array;
      masked = v.masked;
      head_in = v.head_in;
      tail_at = v.tail_at ∙ rw one (mod-one (mb.head + mb.count) ∙ sym (mod-one (mb.head + 0)));
      within = omega arith;
    },
    refl,
  )

  pop_kind-refines :
      (k : MailboxKind) (mb : Mailbox S)
      → IsValid mb
      → mb.kind ≡ k
      → mb.count ≢ 0
      → let (rc, out, mb') = pop_kind k mb in
        ((rc, out, contents mb') ≡ take_oldest (contents mb)) × IsValid mb' × (mb'.kind ≡ mb.kind)
  unfolding pop_kind
  pop_kind-refines fifo_8 mb v e h = pop_ring-refines mb v h
  pop_kind-refines fifo_16 mb v e h = pop_ring-refines mb v h
  pop_kind-refines lossy_ring_8 mb v e h = pop_ring-refines mb v h
  pop_kind-refines mailbox_1 mb v e h = pop_single-refines mb v (v.sized ∙ ap kind_capacity e) h
  pop_kind-refines coalesced_flag mb v e h =
      pop_single-refines mb v (v.sized ∙ ap kind_capacity e) h

  -- A pop from a well-formed mailbox takes the oldest pending message out, or says that there is
  -- none, and leaves the others in order in a well-formed mailbox of the same kind.
  pub pop_refines :
      (mb : Mailbox S)
      → IsValid mb
      → let (rc, out, mb') = pop mb in
        ((rc, out, contents mb') ≡ take_oldest (contents mb)) × IsValid mb' × (mb'.kind ≡ mb.kind)
  unfolding pop
  pop_refines mb v = elim (Bool-cases (mb.count == 0)) [
    | inl idle ↦ rw idle (rw (contents-nil mb v ((==_iff _ _).0 idle)) (refl, v, refl))
    | inr full ↦ rw full (pop_kind-refines mb.kind mb v refl (ground arith))
  ]
