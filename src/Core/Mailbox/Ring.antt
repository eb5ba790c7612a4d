-- ===== src/Core/Mailbox/Ring.antt =====
-- The representation invariant of a mailbox, the messages that it holds, and what the helpers of
-- core/src/ev_mailbox.c do to them.
use esp8266_event_driven_fra.Prelude.{
  ℕ, suc, ◌+◌, ◌-◌, ◌%◌, ◌≤◌, ◌<◌, ◌≡◌, ◌≢◌, sym, ap, ◌∙◌, List, [], ◌∷◌, ◌++◌, arith, length, set,
  add32, bit_and, bit_and-zero, bit_and_7, bit_and_15, ring, ring-push, ring-pop, ring-clear,
  length-tabulate, get_or-set_self,
}
use native.Mathlib.Nat.{mod-one, mod-lt, mod-add-mod}
use esp8266_event_driven_fra.Core.Catalog.{
  MailboxKind, fifo_8, fifo_16, mailbox_1, lossy_ring_8, coalesced_flag,
}
use esp8266_event_driven_fra.Core.Msg.{Msg, zero_msg}
use esp8266_event_driven_fra.Core.Mailbox.State.{Mailbox, kind_capacity, slot, index_advance}

suc_pred : (n : ℕ) → 0 < n → n ≡ suc (n - 1)
suc_pred n h = omega arith

-- The mask of a mailbox takes the residue modulo its capacity.
mask-mod : (k : MailboxKind) (x : ℕ) → bit_and x (kind_capacity k - 1) ≡ x % kind_capacity k
mask-mod fifo_8 x = bit_and_7 x
mask-mod fifo_16 x = bit_and_15 x
mask-mod mailbox_1 x = bit_and-zero x ∙ sym (mod-one x)
mask-mod lossy_ring_8 x = bit_and_7 x
mask-mod coalesced_flag x = bit_and-zero x ∙ sym (mod-one x)

pub capacity_bounds : (k : MailboxKind) → (0 < kind_capacity k) × (kind_capacity k ≤ 16)
capacity_bounds fifo_8 = omega arith
capacity_bounds fifo_16 = omega arith
capacity_bounds mailbox_1 = omega arith
capacity_bounds lossy_ring_8 = omega arith
capacity_bounds coalesced_flag = omega arith

module _ {S : Type 0} where
  -- The pending messages, oldest first.
  abbrev pub contents : Mailbox S → List (Msg S)
  contents mb = ring mb.storage mb.storage_count zero_msg mb.head mb.count

  pub record IsValid (mb : Mailbox S) : Type 0 where
    pub sized : mb.storage_count ≡ kind_capacity mb.kind
    pub array : length mb.storage ≡ mb.storage_count
    pub masked : mb.storage_mask ≡ mb.storage_count - 1
    pub head_in : mb.head < mb.storage_count
    pub tail_at : mb.tail ≡ (mb.head + mb.count) % mb.storage_count
    pub within : mb.count ≤ mb.storage_count

  pub length-contents : (mb : Mailbox S) → length (contents mb) ≡ mb.count
  unfolding ring
  length-contents mb = length-tabulate _ mb.count

  module _ (mb : Mailbox S) (v : IsValid mb) where
    pub size_bounds : (0 < mb.storage_count) × (mb.storage_count ≤ 16)
    size_bounds = let b = capacity_bounds mb.kind in omega (arith, v.sized)

    pub mask_lem : (x : ℕ) → bit_and x mb.storage_mask ≡ x % mb.storage_count
    mask_lem x = rw (v.masked, v.sized) (mask-mod mb.kind x)

    pub index_advance-mod :
        (i : ℕ) → i < mb.storage_count → index_advance mb i ≡ (i + 1) % mb.storage_count
    unfolding index_advance
    index_advance-mod i h =
        let b = size_bounds in mask_lem (add32 i 1) ∙ ap (λ t. t % mb.storage_count) (omega arith)

    pub tail_in : mb.tail < mb.storage_count
    tail_in =
        let b = size_bounds in let m = mod-lt (mb.head + mb.count) b.0 in omega (arith, v.tail_at)

    -- After a store at the tail the tail stands just past the messages again.
    pub next_tail : index_advance mb mb.tail ≡ (mb.head + suc mb.count) % mb.storage_count
    next_tail =
        index_advance-mod mb.tail tail_in
        ∙ ap (λ t. (t + 1) % mb.storage_count) v.tail_at
        ∙ mod-add-mod (mb.head + mb.count) mb.storage_count 1
        ∙ ap (λ t. t % mb.storage_count) (omega arith)

    -- Storing at the tail of a mailbox that is not full.
    pub contents-push :
        (m : Msg S)
        → mb.count < mb.storage_count
        → ring (set mb.storage mb.tail m) mb.storage_count zero_msg mb.head (suc mb.count)
          ≡ contents mb ++ m ∷ []
    contents-push m h =
        ap (λ t. ring (set mb.storage t m) mb.storage_count zero_msg mb.head (suc mb.count))
          v.tail_at
        ∙ ring-push mb.storage mb.storage_count zero_msg (omega (arith, v.array)) mb.head mb.count m
            h

    -- Taking the oldest message out, and clearing its slot.
    pub contents-pop :
        (n : ℕ) (x : Msg S)
        → mb.count ≡ suc n
        → contents mb
          ≡ slot mb mb.head
            ∷ ring
                (set mb.storage mb.head x)
                mb.storage_count
                zero_msg
                ((mb.head + 1) % mb.storage_count)
                n
    contents-pop n x e =
        ap (λ c. ring mb.storage mb.storage_count zero_msg mb.head c) e
        ∙ ring-pop mb.storage mb.storage_count zero_msg mb.head n v.head_in
        ∙ ap (λ r. slot mb mb.head ∷ r)
            (sym (
              ring-clear mb.storage mb.storage_count zero_msg (omega (arith, v.array)) mb.head n x
                v.head_in (omega (arith, v.within))))

    -- One slot, written last.
    pub contents-single :
        (buf : List (Msg S)) (m : Msg S)
        → mb.storage_count ≡ 1
        → 0 < length buf
        → ring (set buf 0 m) mb.storage_count zero_msg mb.head 1 ≡ m ∷ []
    unfolding ring
    contents-single buf m one h =
        let first : mb.head ≡ 0 = omega (arith, v.head_in) in
        rw (one, first) (ap (λ t. t ∷ []) (get_or-set_self buf 0 m zero_msg h))

    -- The oldest of a mailbox that is not empty, and a mailbox that is.
    pub contents-head : 0 < mb.count → (q : List (Msg S)) × (contents mb ≡ slot mb mb.head ∷ q)
    contents-head h = (
      _,
      ap (λ c. ring mb.storage mb.storage_count zero_msg mb.head c) (suc_pred mb.count h)
          ∙ ring-pop mb.storage mb.storage_count zero_msg mb.head (mb.count - 1) v.head_in,
    )

    pub contents-nil : mb.count ≡ 0 → contents mb ≡ []
    unfolding ring
    contents-nil e = rw e

    pub contents-one : mb.storage_count ≡ 1 → mb.count ≢ 0 → contents mb ≡ slot mb 0 ∷ []
    unfolding ring
    contents-one one h =
        let first : mb.head ≡ 0 = omega (arith, v.head_in) in
        let n : mb.count ≡ 1 = omega (arith, v.within) in rw (n, one, first)
