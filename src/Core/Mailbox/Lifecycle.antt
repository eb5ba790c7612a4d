-- ===== src/Core/Mailbox/Lifecycle.antt =====
-- The beginning and the end of a mailbox: `ev_mailbox_init` and `ev_mailbox_reset`.
use esp8266_event_driven_fra.Prelude.{
  ℕ, zero, suc, ◌+◌, ◌-◌, ◌≤◌, ◌<◌, ◌≡◌, ◌↔◌, refl, sym, ap, ◌∙◌, inl, inr, false, none, some, List,
  [], ◌∷◌, arith, length, get_or, set, drop, replicate, length-replicate, ring, Bool-cases,
  length-set, ◌==◌, ==_iff,
}
use esp8266_event_driven_fra.Core.Result.{ok, err_out_of_range}
use esp8266_event_driven_fra.Core.Catalog.{
  MailboxKind, fifo_8, fifo_16, mailbox_1, lossy_ring_8, coalesced_flag,
}
use esp8266_event_driven_fra.Core.Msg
use esp8266_event_driven_fra.Core.Msg.{Msg, zero_msg}
use esp8266_event_driven_fra.Core.Mailbox.State.{
  Mailbox, kind_capacity, capacity_is_power_of_two, init, slot, zero_stats,
}
use esp8266_event_driven_fra.Core.Mailbox.Drain.{dispose_from, reset}
use esp8266_event_driven_fra.Core.Mailbox.Queue.{dispose_all}
use esp8266_event_driven_fra.Core.Mailbox.Ring.{IsValid, contents, size_bounds, capacity_bounds}
use esp8266_event_driven_fra.Core.Mailbox.Pushes.{dispose_slot-ok}

drop-set {ℓ} :
    {A : Type ℓ} (xs : List A) (i : ℕ) (x : A) → drop (suc i) (set xs i x) ≡ drop (suc i) xs
drop-set [] i x = refl
drop-set (y ∷ xs) zero x = refl
drop-set (y ∷ xs) (suc i) x = drop-set xs i x

drop-get_or {ℓ} :
    {A : Type ℓ} (xs : List A) (i : ℕ) (d : A)
    → i < length xs
    → drop i xs ≡ get_or xs i d ∷ drop (suc i) xs
drop-get_or [] i d h = absurd (omega arith)
drop-get_or (y ∷ xs) zero d h = refl
drop-get_or (y ∷ xs) (suc i) d h = drop-get_or xs i d (omega arith)

drop-all {ℓ} : {A : Type ℓ} (xs : List A) (i : ℕ) → length xs ≤ i → drop i xs ≡ []
drop-all [] zero h = refl
drop-all [] (suc i) h = refl
drop-all (y ∷ xs) zero h = absurd (omega arith)
drop-all (y ∷ xs) (suc i) h = drop-all xs i (omega arith)

module _ {S : Type 0} where
  -- The loop of reset: every slot from an index on is disposed of, in order.
  dispose_from-lem :
      (n i : ℕ) (mb : Mailbox S) (s : S)
      → i + n ≡ mb.storage_count
      → length mb.storage ≡ mb.storage_count
      → let (mb', s') = dispose_from n i mb s in
        (s' ≡ dispose_all (drop i mb.storage) s)
        × (length mb'.storage ≡ mb.storage_count)
        × (mb'.storage_count ≡ mb.storage_count)
        × (mb'.storage_mask ≡ mb.storage_mask)
        × (mb'.kind ≡ mb.kind)
  unfolding dispose_from
  dispose_from-lem zero i mb s e size = (
    ap (λ q. dispose_all q s) (sym (drop-all mb.storage i (omega arith))),
    size,
    refl,
    refl,
    refl,
  )
  dispose_from-lem (suc n) i mb s e size =
      let here = drop-get_or mb.storage i zero_msg (omega arith) in
      let mb₁ : Mailbox S = record mb { storage = set mb.storage i Msg.reset } in
      let s₁ = (Msg.dispose (slot mb i) s).2 in
      let (owner, len, cap, mask, kind) =
        dispose_from-lem n (suc i) mb₁ s₁ (omega arith)
          (length-set mb.storage i Msg.reset ∙ size) in
      rw (dispose_slot-ok mb i s (omega arith), dispose_from)
        (
          owner
              ∙ ap (λ q. dispose_all q s₁) (drop-set mb.storage i Msg.reset)
              ∙ ap (λ q. dispose_all q s) (sym here),
          len,
          cap,
          mask,
          kind,
        )

  -- Resetting a well-formed mailbox leaves it well formed, of the same kind and without a pending
  -- message, and disposes of the message in each slot of its array, in order.
  pub reset_lem :
      (mb : Mailbox S) (s : S)
      → IsValid mb
      → let (mb', s') = reset mb s in
        IsValid mb' × (contents mb' ≡ []) × (mb'.kind ≡ mb.kind) × (s' ≡ dispose_all mb.storage s)
  unfolding reset ring
  reset_lem mb s v =
      let b = size_bounds mb v in
      let (owner, len, cap, mask, kind) =
        dispose_from-lem mb.storage_count 0 mb s (omega arith) v.array in
      (
        record {
          sized = cap ∙ v.sized ∙ ap kind_capacity (sym kind);
          array = len ∙ sym cap;
          masked = mask ∙ v.masked ∙ ap (λ n. n - 1) (sym cap);
          head_in = omega (arith, cap);
          tail_at = omega (arith, cap);
          within = omega arith;
        },
        refl,
        kind,
        owner,
      )

  abbrev fresh : MailboxKind → Mailbox S
  fresh k = record {
    kind = k;
    storage = replicate (kind_capacity k) zero_msg;
    storage_count = kind_capacity k;
    storage_mask = kind_capacity k - 1;
    head = 0;
    tail = 0;
    count = 0;
    stats = zero_stats;
  }

  fresh-IsValid : (k : MailboxKind) → IsValid (fresh k)
  fresh-IsValid k =
      let b = capacity_bounds k in
      record {
        sized = refl;
        array = length-replicate (kind_capacity k) zero_msg;
        masked = refl;
        head_in = b.0;
        tail_at = omega arith;
        within = omega arith;
      }

  fresh-contents : (k : MailboxKind) → contents (fresh k) ≡ []
  unfolding ring
  fresh-contents k = refl

  init_fits : (k : MailboxKind) → init k (kind_capacity k) ≡ (ok, some (fresh k))
  unfolding init capacity_is_power_of_two
  init_fits fifo_8 = refl
  init_fits fifo_16 = refl
  init_fits mailbox_1 = refl
  init_fits lossy_ring_8 = refl
  init_fits coalesced_flag = refl

  init_other :
      (k : MailboxKind) (n : ℕ)
      → (n == kind_capacity k) ≡ false
      → init {S = S} k n ≡ (err_out_of_range, none)
  unfolding init
  init_other fifo_8 n h = rw h refl
  init_other fifo_16 n h = rw h refl
  init_other mailbox_1 n h = rw h refl
  init_other lossy_ring_8 n h = rw h refl
  init_other coalesced_flag n h = rw h refl

  -- Initialising a mailbox succeeds exactly if the array has the capacity of the kind; the mailbox
  -- is then well formed, of that kind and empty.
  pub init_lem :
      (k : MailboxKind) (n : ℕ)
      → let (rc, out) = init {S = S} k n in
        ((rc ≡ ok) ↔ (n ≡ kind_capacity k))
        × ((mb : Mailbox S) → out ≡ some mb → IsValid mb × (mb.kind ≡ k) × (contents mb ≡ []))
  init_lem k n = elim (Bool-cases (n == kind_capacity k)) [
    | inl fits ↦
        let e : n ≡ kind_capacity k = (==_iff _ _).0 fits in
        rw (e, init_fits k)
          (
            ((λ _. refl), (λ _. refl)),
            λ mb made.
                let same : fresh k ≡ mb = cc made in
                rw (← same) (fresh-IsValid k, refl, fresh-contents k),
          )
    | inr other ↦
        rw (init_other k n other)
          (((λ made. absurd (cc made)), (λ e. absurd (ground arith))), λ mb made. absurd (cc made))
  ]
