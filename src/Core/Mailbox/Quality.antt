-- ===== src/Core/Mailbox/Quality.antt =====
-- The qualities of service of `ev_mailbox_push_qos`, over the list of pending messages.
use esp8266_event_driven_fra.Prelude.{
  ℕ, ◌+◌, ◌%◌, ◌<◌, ◌≡◌, refl, sym, ap, ◌∙◌, inl, inr, none, some, arith, get_or, set, ring,
  ring-set, lt→leb, le→leb, get_or-tabulate, length-set, set_twice,
}
use native.Mathlib.Nat.{mod-lt}
use esp8266_event_driven_fra.Core.Result.{ok}
use esp8266_event_driven_fra.Core.Route.{qos_coalesced, qos_latest_only}
use esp8266_event_driven_fra.Core.Msg
use esp8266_event_driven_fra.Core.Msg.{Msg, zero_msg}
use esp8266_event_driven_fra.Core.Msg.Lifetime.{dispose-ok}
use esp8266_event_driven_fra.Core.Mailbox.State.{
  Effect, Stats, Mailbox, retain_for_queue, replace_slot, slot,
}
use esp8266_event_driven_fra.Core.Mailbox.Push.{push}
use esp8266_event_driven_fra.Core.Mailbox.Deliver.{
  push_qos, push_by, push_coalesced, push_latest_only, push_reported, drop_reported,
  replace_reported, report,
}
use esp8266_event_driven_fra.Core.Mailbox.Ring.{IsValid, contents, size_bounds, length-contents}
use esp8266_event_driven_fra.Core.Mailbox.Pushes.{store_at-ok, dispose_slot-ok}
use esp8266_event_driven_fra.Core.Mailbox.Search.{
  first_of, last_of, last_of-lt, find_event_slot-first, find_event_slot-last,
}

module _ {S : Type 0} where
  pub restat-IsValid :
      (mb : Mailbox S) (st : Stats) → IsValid mb → IsValid (record mb { stats = st })
  restat-IsValid mb st v = record {
    sized = v.sized;
    array = v.array;
    masked = v.masked;
    head_in = v.head_in;
    tail_at = v.tail_at;
    within = v.within;
  }

  pub rewrite-IsValid :
      (mb : Mailbox S) (i : ℕ) (m : Msg S)
      → IsValid mb
      → IsValid (record mb { storage = set mb.storage i m })
  rewrite-IsValid mb i m v = record {
    sized = v.sized;
    array = length-set mb.storage i m ∙ v.array;
    masked = v.masked;
    head_in = v.head_in;
    tail_at = v.tail_at;
    within = v.within;
  }

  -- In a well-formed mailbox a valid coalesced message whose event is pending is absorbed without
  -- a change to the pending messages or to the owner of a payload; one whose event is not pending
  -- is dropped by a full mailbox, which answers ok, and pushed into one with room.
  pub push_qos_coalesced :
      (mb : Mailbox S) (m : Msg S) (s : S)
      → IsValid mb
      → Msg.validate m ≡ ok
      → let (rc, mb', s', r) = push_qos mb m qos_coalesced s in
        ((k : ℕ)
          → first_of m.event_id (contents mb) 0 ≡ some k
          → (rc ≡ ok)
            × (contents mb' ≡ contents mb)
            × (s' ≡ s)
            × (r
                ≡ report Effect.coalesced ok mb.count mb.count
                    (some ((mb.head + k) % mb.storage_count))))
        × (first_of m.event_id (contents mb) 0 ≡ none
            → mb.count ≡ mb.storage_count
            → (rc ≡ ok)
              × (contents mb' ≡ contents mb)
              × (s' ≡ s)
              × (r ≡ report Effect.dropped ok mb.count mb.count none))
        × (first_of m.event_id (contents mb) 0 ≡ none
            → mb.count < mb.storage_count
            → (rc, mb', s') ≡ push mb m s)
  unfolding push_qos push_by push_coalesced drop_reported push_reported
  push_qos_coalesced mb m s v fine = (
    λ k e.
        rw (fine, push_coalesced, find_event_slot-first mb v m.event_id, e)
          (refl, refl, refl, refl),
    λ e full.
        rw
          (
            fine,
            push_coalesced,
            find_event_slot-first mb v m.event_id,
            e,
            le→leb mb.storage_count mb.count (omega arith),
          )
          (refl, refl, refl, refl),
    λ e room.
        rw
          (
            fine,
            push_coalesced,
            find_event_slot-first mb v m.event_id,
            e,
            lt→leb mb.storage_count mb.count room,
          )
          refl,
  )

  -- Writing the message that stands `k` places behind the head.
  replace_slot-contents :
      (mb : Mailbox S) (k : ℕ) (m : Msg S) (s : S)
      → IsValid mb
      → k < mb.count
      → (retain_for_queue m s).0 ≡ ok
      → let i = (mb.head + k) % mb.storage_count in
        replace_slot mb i m s ≡ (
          ok,
          record mb { storage = set (set mb.storage i Msg.reset) i m },
          (Msg.dispose (slot mb i) (retain_for_queue m s).1).2,
        )
  unfolding replace_slot
  replace_slot-contents mb k m s v h granted =
      let i = (mb.head + k) % mb.storage_count in
      let hi : i < mb.storage_count = mod-lt (mb.head + k) (size_bounds mb v).0 in
      rw
        (
          replace_slot,
          granted,
          dispose_slot-ok mb i (retain_for_queue m s).1 hi,
          store_at-ok (record mb { storage = set mb.storage i Msg.reset }) i m hi,
          dispose-ok (slot mb i) (retain_for_queue m s).1,
        )
        refl

  replaced-contents :
      (mb : Mailbox S) (k : ℕ) (m : Msg S)
      → IsValid mb
      → k < mb.count
      → let i = (mb.head + k) % mb.storage_count in
        contents (record mb { storage = set (set mb.storage i Msg.reset) i m })
        ≡ set (contents mb) k m
  replaced-contents mb k m v h =
      let i = (mb.head + k) % mb.storage_count in
      ring-set (set mb.storage i Msg.reset) mb.storage_count zero_msg
        (omega (arith, length-set mb.storage i Msg.reset, v.array)) mb.head mb.count k m h v.within
      ∙ ap (λ q. set q k m)
          (ring-set mb.storage mb.storage_count zero_msg (omega (arith, v.array)) mb.head mb.count k
            Msg.reset h v.within)
      ∙ set_twice (contents mb) k Msg.reset m

  -- In a well-formed mailbox a valid latest-only message whose event is pending takes the place of
  -- the last pending message of that event, which is disposed of, once its own share is granted,
  -- and the others keep their places; one whose event is not pending is dropped by a full mailbox,
  -- which answers ok, and pushed into one with room.
  pub push_qos_latest_only :
      (mb : Mailbox S) (m : Msg S) (s : S)
      → IsValid mb
      → Msg.validate m ≡ ok
      → let (rc, mb', s', r) = push_qos mb m qos_latest_only s in
        ((k : ℕ)
          → last_of m.event_id (contents mb) 0 none ≡ some k
          → (retain_for_queue m s).0 ≡ ok
          → (rc ≡ ok)
            × (contents mb' ≡ set (contents mb) k m)
            × (s' ≡ (Msg.dispose (get_or (contents mb) k zero_msg) (retain_for_queue m s).1).2)
            × (r.effect ≡ Effect.replaced))
        × (last_of m.event_id (contents mb) 0 none ≡ none
            → mb.count ≡ mb.storage_count
            → (rc ≡ ok)
              × (contents mb' ≡ contents mb)
              × (s' ≡ s)
              × (r ≡ report Effect.dropped ok mb.count mb.count none))
        × (last_of m.event_id (contents mb) 0 none ≡ none
            → mb.count < mb.storage_count
            → (rc, mb', s') ≡ push mb m s)
  unfolding push_qos push_by push_latest_only drop_reported push_reported replace_reported ring
  push_qos_latest_only mb m s v fine = (
    λ k e granted.
        let hk : k < mb.count = elim (last_of-lt m.event_id (contents mb) 0 none e) [
          | inl never ↦ absurd (cc never)
          | inr lt ↦ omega (arith, length-contents mb)
        ] in
        rw
          (
            fine,
            push_latest_only,
            find_event_slot-last mb v m.event_id,
            e,
            replace_reported,
            replace_slot-contents mb k m s v hk granted,
          )
          (
            refl,
            replaced-contents mb k m v hk,
            ap (λ x. (Msg.dispose x (retain_for_queue m s).1).2)
                (sym (
                  get_or-tabulate
                    (λ j. get_or mb.storage ((mb.head + j) % mb.storage_count) zero_msg) mb.count k
                    zero_msg hk)),
            refl,
          ),
    λ e full.
        rw
          (
            fine,
            push_latest_only,
            find_event_slot-last mb v m.event_id,
            e,
            le→leb mb.storage_count mb.count (omega arith),
          )
          (refl, refl, refl, refl),
    λ e room.
        rw
          (
            fine,
            push_latest_only,
            find_event_slot-last mb v m.event_id,
            e,
            lt→leb mb.storage_count mb.count room,
          )
          refl,
  )
