-- ===== src/Core/Mailbox/Search.antt =====
-- The search of `ev_mailbox_find_event_slot`, against the list of pending messages.
use esp8266_event_driven_fra.Prelude.{
  ℕ, zero, suc, ◌+◌, ◌%◌, ◌<◌, ◌≡◌, refl, sym, ap, ap₂, ◌∙◌, ◌⊎◌, inl, inr, true, false, Option,
  none, some, List, [], ◌∷◌, arith, length, tabulate, get_or, ◌==◌, if◌then◌else◌, ring, add32,
  bit_and, lt→leb, Bool-cases, tabulate-cong,
}
use esp8266_event_driven_fra.Core.Msg.{Msg, zero_msg}
use esp8266_event_driven_fra.Core.Mailbox.State.{
  Mailbox, slot, event_at, pending_index_at, find_from, find_event_slot,
}
use esp8266_event_driven_fra.Core.Mailbox.Ring.{IsValid, contents, size_bounds, mask_lem}

module _ {S : Type 0} where
  -- The first and the last message of an event in a queue, by index.
  abbrev pub first_of : ℕ → List (Msg S) → ℕ → Option ℕ
  first_of event_id [] k = none
  first_of event_id (m ∷ q) k =
      if m.event_id == event_id then some k else first_of event_id q (suc k)

  abbrev pub last_of : ℕ → List (Msg S) → ℕ → Option ℕ → Option ℕ
  last_of event_id [] k found = found
  last_of event_id (m ∷ q) k found =
      last_of event_id q (suc k) (if m.event_id == event_id then some k else found)

  abbrev index_of : Mailbox S → Option ℕ → Option ℕ
  index_of mb none = none
  index_of mb (some k) = some ((mb.head + k) % mb.storage_count)

  -- The messages from an offset on.
  abbrev from : Mailbox S → ℕ → ℕ → List (Msg S)
  from mb k n =
      tabulate (λ j. get_or mb.storage ((mb.head + (k + j)) % mb.storage_count) zero_msg) n

  from-suc :
      (mb : Mailbox S) (k n : ℕ)
      → from mb k (suc n) ≡ slot mb ((mb.head + k) % mb.storage_count) ∷ from mb (suc k) n
  from-suc mb k n = ap₂ ◌∷◌ (ap (λ t. slot mb ((mb.head + t) % mb.storage_count)) (omega arith)) (
      tabulate-cong _ _ n (λ j _.
        ap (λ t. get_or mb.storage ((mb.head + t) % mb.storage_count) zero_msg) (omega arith)))

  from-zero : (mb : Mailbox S) → from mb 0 mb.count ≡ contents mb
  unfolding ring
  from-zero mb =
      tabulate-cong _ _ mb.count (λ j _.
        ap (λ t. get_or mb.storage ((mb.head + t) % mb.storage_count) zero_msg) (omega arith))

  module _ (mb : Mailbox S) (v : IsValid mb) (event_id : ℕ) where
    event_at-lem :
        (k : ℕ)
        → k < mb.count
        → event_at mb event_id k ≡ (
            let i = (mb.head + k) % mb.storage_count in
            if (slot mb i).event_id == event_id then some i else none)
    unfolding event_at pending_index_at
    event_at-lem k h =
        let b = size_bounds mb v in
        let i : bit_and (add32 mb.head k) mb.storage_mask ≡ (mb.head + k) % mb.storage_count =
          mask_lem mb v (add32 mb.head k)
          ∙ ap (λ t. t % mb.storage_count) (omega (arith, v.head_in, v.within)) in
        rw (lt→leb mb.count k h, event_at, i) refl

    find_last :
        (n k : ℕ) (found : Option ℕ)
        → k + n ≡ mb.count
        → find_from mb event_id true n k (index_of mb found)
          ≡ index_of mb (last_of event_id (from mb k n) k found)
    unfolding find_from
    find_last zero k found e = refl
    find_last (suc n) k found e =
        rw (from-suc mb k n, event_at-lem k (omega arith), find_from)
          (elim (Bool-cases ((slot mb ((mb.head + k) % mb.storage_count)).event_id == event_id)) [
            | inl hit ↦ rw (hit, last_of) (find_last n (suc k) (some k) (omega arith))
            | inr miss ↦ rw (miss, last_of) (find_last n (suc k) found (omega arith))
          ])

    find_first :
        (n k : ℕ)
        → k + n ≡ mb.count
        → find_from mb event_id false n k none ≡ index_of mb (first_of event_id (from mb k n) k)
    unfolding find_from
    find_first zero k e = refl
    find_first (suc n) k e =
        rw (event_at-lem k (omega arith), find_from)
          (elim (Bool-cases ((slot mb ((mb.head + k) % mb.storage_count)).event_id == event_id)) [
            | inl hit ↦ rw (hit, first_of) refl
            | inr miss ↦ rw (miss, first_of) (find_first n (suc k) (omega arith))
          ])
        ∙ ap (λ q. index_of mb (first_of event_id q k)) (sym (from-suc mb k n))

    pub find_event_slot-last :
        find_event_slot mb event_id true ≡ index_of mb (last_of event_id (contents mb) 0 none)
    unfolding find_event_slot
    find_event_slot-last =
        find_last mb.count 0 none (omega arith)
        ∙ ap (λ q. index_of mb (last_of event_id q 0 none)) (from-zero mb)

    pub find_event_slot-first :
        find_event_slot mb event_id false ≡ index_of mb (first_of event_id (contents mb) 0)
    unfolding find_event_slot
    find_event_slot-first =
        find_first mb.count 0 (omega arith)
        ∙ ap (λ q. index_of mb (first_of event_id q 0)) (from-zero mb)

  -- The index found is one of the queue.
  pub last_of-lt :
      (event_id : ℕ) (q : List (Msg S)) (k : ℕ) (found : Option ℕ) {i : ℕ}
      → last_of event_id q k found ≡ some i
      → (found ≡ some i) ⊎ (i < k + length q)
  last_of-lt event_id [] k found e = inl e
  last_of-lt event_id (m ∷ q) k found {i} e =
      elim (last_of-lt event_id q (suc k) (if m.event_id == event_id then some k else found) e) [
        | inl here ↦ ground arith
        | inr later ↦ inr (omega arith)
      ]
