-- ===== src/Core/LeasePool/Leases.antt =====
-- What a holder of a lease may rely on, from acquire to the last release and after it.
use esp8266_event_driven_fra.Prelude.{
  ℕ, ◌+◌, ◌-◌, ◌*◌, ◌≤◌, ◌<◌, ◌≡◌, ◌≢◌, ◌⊎◌, inl, inr, refl, true, false, Option, none, some, arith,
  get_elem?, set, ltb, inc32, sub32, u32_mod, get_elem?-set_self, get_elem?-set_ne, Option-cases,
  Bool-cases, ◌==◌, lt-length, ne→==, ap, sym, ◌∙◌,
}
use native.Mathlib.Nat.{zero-add}
use native.Mathlib.Decide.{ℕ_discrete}
use esp8266_event_driven_fra.Core.Result.{ok, err_state, err_full, err_out_of_range}
use esp8266_event_driven_fra.Core.LeasePool.Slots.{
  Slot, Pool, Handle, data_ptr, handle_slot, handle_is_live, first_free, take_slot,
}
use esp8266_event_driven_fra.Core.LeasePool.Shares.{
  acquire, retain, release, free_slot, handle_size, handle_refcount,
}
use esp8266_event_driven_fra.Core.LeasePool.Invariant.{
  IsSlot, IsValid, count_in_use, handle_slot-inv, first_free-inv, first_free-none, first_free-some,
  slot_at,
}

-- A handle is live exactly if it names a slot in use of its own generation.
pub handle_slot-live :
    (p : Pool) (h : Handle) (i : ℕ) (s : Slot)
    → 0 < p.slot_count
    → 0 < p.slot_size
    → i < p.slot_count
    → h.slot ≡ some i
    → get_elem? p.slots i ≡ some s
    → IsSlot p.slot_size i s
    → s.in_use ≡ true
    → s.generation ≡ h.generation
    → handle_slot p h ≡ some (i, s)
unfolding handle_slot
handle_slot-live p h i s n m hi e at k used g = ground arith

handle_slot-dead :
    (p : Pool) (h : Handle) (i : ℕ) (s : Slot)
    → h.slot ≡ some i
    → get_elem? p.slots i ≡ some s
    → (s.in_use ≡ false) ⊎ (s.generation ≢ h.generation)
    → handle_slot p h ≡ none
unfolding handle_slot
handle_slot-dead p h i s e at (inl k) = ground arith
handle_slot-dead p h i s e at (inr k) = ground arith

-- A handle that is not live is refused, and at most counted.
pub stale_refused :
    (p : Pool) (h : Handle)
    → handle_slot p h ≡ none
    → (handle_is_live p h ≡ false)
      × ((retain p h).0 ≡ err_state)
      × ((retain p h).1.slots ≡ p.slots)
      × ((release p h).0 ≡ err_state)
      × ((release p h).1.slots ≡ p.slots)
unfolding handle_is_live retain release
stale_refused p h e = ground arith

module _ (p : Pool) (v : IsValid p) where
  -- The payload of slot `i` starts at offset `i * slot_size`.
  pub data_ptr_at :
      (i : ℕ) (s : Slot)
      → get_elem? p.slots i ≡ some s
      → i < p.slot_count
      → data_ptr p i ≡ some (i * p.slot_size)
  unfolding data_ptr
  data_ptr_at i s at hi = let k = slot_at p v i s at in ground (arith, v.some_slots, v.some_bytes)

  -- On a well-formed pool, an acquire of a size that does not fit is refused as out of range; one
  -- of a size that fits succeeds while fewer slots are in use than there are, and reports a full
  -- pool once all are in use.
  pub acquire_result :
      (size : ℕ)
      → let rc = (acquire p size).0 in
        (p.slot_size < size → rc ≡ err_out_of_range)
        × (size ≤ p.slot_size → count_in_use p.slots < p.slot_count → rc ≡ ok)
        × (size ≤ p.slot_size → count_in_use p.slots ≡ p.slot_count → rc ≡ err_full)
  unfolding acquire
  acquire_result size = elim (Option-cases (first_free p.slots 0)) [
    | inl e ↦ rw (e, acquire) (ground (arith, first_free-none p.slots 0 e, v.array))
    | inr ((i, s), e) ↦ rw (e, acquire) (ground (arith, first_free-some p.slots 0 i s e, v.array))
  ]

  -- A successful acquire from a well-formed pool hands out a live handle that holds the only
  -- share, has the size asked for and points at its own slot; no other slot changes.
  pub acquire_lem :
      (size : ℕ) {h : Handle} {ptr : Option ℕ} {p' : Pool}
      → acquire p size ≡ (ok, some (h, ptr), p')
      → (i : ℕ) × (h.slot ≡ some i)
        × (i < p.slot_count)
        × (handle_is_live p' h ≡ true)
        × (handle_refcount p' h ≡ 1)
        × (handle_size p' h ≡ size)
        × (ptr ≡ some (i * p.slot_size))
        × ((k : ℕ) → k ≢ i → get_elem? p'.slots k ≡ get_elem? p.slots k)
  unfolding acquire handle_is_live handle_refcount handle_size
  acquire_lem size {h} {ptr} {p'} e = elim (Option-cases (first_free p.slots 0)) [
    | inl none_free ↦ absurd (ground arith)
    | inr ((i, s), found) ↦
        let (k, hk, at, idle) = first_free-inv p.slots 0 i s found in
        let at' : get_elem? p.slots i ≡ some s = rw (hk, zero-add) at in
        let s' : Slot = take_slot s size in
        let kept = slot_at p v i s at' in
        let range : i < p.slot_count = omega (arith, lt-length p.slots i s at', v.array) in
        let named : h.slot ≡ some i = ground arith in
        let gen : h.generation ≡ s'.generation = ground arith in
        let slots' : p'.slots ≡ set p.slots i s' = ground arith in
        let there : get_elem? p'.slots i ≡ some s' =
          ap (λ ss. get_elem? ss i) slots' ∙ get_elem?-set_self p.slots i s' s at' in
        let live : handle_slot p' h ≡ some (i, s') =
          handle_slot-live p' h i s' (ground (arith, v.some_slots)) (ground (arith, v.some_bytes))
            (ground arith) named there (ground arith) refl (sym gen) in
        (
          i,
          named,
          range,
          ground arith,
          ground arith,
          ground arith,
          ground (arith, data_ptr_at i s at' range),
          λ k' ne.
              ap (λ ss. get_elem? ss k') slots'
              ∙ get_elem?-set_ne p.slots i k' s' (λ q. ne (sym q)),
        )
  ]

  module _ (h : Handle) (i : ℕ) (s : Slot) (found : handle_slot p h ≡ some (i, s)) where
    pub live_range : i < p.slot_count
    live_range =
        let (_, at, _, _, _) = handle_slot-inv p h i s found in
        omega (arith, lt-length p.slots i s at, v.array)

    frame : (t : Slot) (k : ℕ) → k ≢ i → get_elem? (set p.slots i t) k ≡ get_elem? p.slots k
    frame t k ne = get_elem?-set_ne p.slots i k t (λ q. ne (sym q))

    -- Retaining a live handle of a well-formed pool, as long as the count of shares does not wrap,
    -- succeeds, keeps the handle live with one share more, and changes no other slot.
    pub retain_lem :
        s.refcount + 1 < u32_mod
        → let (rc, p') = retain p h in
          (rc ≡ ok)
          × (handle_slot p' h ≡ some (i, record s { refcount = s.refcount + 1 }))
          × ((k : ℕ) → k ≢ i → get_elem? p'.slots k ≡ get_elem? p.slots k)
    unfolding retain
    retain_lem room =
        let (named, at, used, gen, pos) = handle_slot-inv p h i s found in
        let kept = slot_at p v i s at in
        let wraps : inc32 s.refcount ≡ s.refcount + 1 = omega arith in
        rw (found, retain, wraps)
          (
            refl,
            handle_slot-live _ h i _ v.some_slots v.some_bytes live_range named
                (get_elem?-set_self p.slots i _ s at) (ground arith) used gen,
            frame _,
          )

    -- Releasing one of several shares of a live handle of a well-formed pool succeeds, keeps the
    -- handle live with one share less, and changes no other slot.
    pub release_shared :
        1 < s.refcount
        → let (rc, p') = release p h in
          (rc ≡ ok)
          × (handle_slot p' h ≡ some (i, record s { refcount = s.refcount - 1 }))
          × ((k : ℕ) → k ≢ i → get_elem? p'.slots k ≡ get_elem? p.slots k)
    unfolding release
    release_shared more =
        let (named, at, used, gen, pos) = handle_slot-inv p h i s found in
        let kept = slot_at p v i s at in
        let word = kept.word in
        let less : sub32 s.refcount 1 ≡ s.refcount - 1 = omega arith in
        let not_last : (s.refcount - 1 == 0) ≡ false = ne→== _ _ (λ e. omega arith) in
        rw (found, release, less, not_last)
          (
            refl,
            handle_slot-live _ h i _ v.some_slots v.some_bytes live_range named
                (get_elem?-set_self p.slots i _ s at) (ground arith) used gen,
            frame _,
          )

    -- Releasing the only share of a live handle of a well-formed pool frees its slot, leaves no
    -- handle to that slot live, and changes no other slot.
    pub release_last :
        s.refcount ≡ 1
        → let (rc, p') = release p h in
          (rc ≡ ok)
          × (get_elem? p'.slots i
              ≡ some (record s { refcount = 0; payload_size = 0; in_use = false }))
          × ((g : Handle) → g.slot ≡ some i → handle_is_live p' g ≡ false)
          × ((k : ℕ) → k ≢ i → get_elem? p'.slots k ≡ get_elem? p.slots k)
    unfolding release free_slot
    release_last one =
        let (named, at, used, gen, pos) = handle_slot-inv p h i s found in
        let last : (sub32 s.refcount 1 == 0) ≡ true = ground arith in
        let there =
          get_elem?-set_self p.slots i (record s { refcount = 0; payload_size = 0; in_use = false })
            s at in
        rw (found, release, last)
          (
            refl,
            there,
            λ g e.
                (stale_refused (free_slot p i s) g
                  (handle_slot-dead (free_slot p i s) g i _ e there (inl refl))).0,
            frame _,
          )

-- A slot that is idle does not become live again for an old handle: the acquire that takes it gives
-- it another generation.
acquire-dead :
    (p : Pool) (h : Handle) (i : ℕ) (s : Slot) (size : ℕ)
    → h.slot ≡ some i
    → get_elem? p.slots i ≡ some s
    → s.in_use ≡ false
    → s.generation ≡ h.generation
    → handle_slot (acquire p size).2 h ≡ none
unfolding acquire
acquire-dead p h i s size named at idle gen = elim (Bool-cases (ltb p.slot_size size)) [
  | inl big ↦ rw big (handle_slot-dead p h i s named at (inl idle))
  | inr fits ↦ rw fits (elim (Option-cases (first_free p.slots 0)) [
    | inl full ↦ rw (full, acquire) (handle_slot-dead _ h i s named at (inl idle))
    | inr ((j, t), found) ↦
        let (k, hk, at_k, idle_k) = first_free-inv p.slots 0 j t found in
        let at_j : get_elem? p.slots j ≡ some t = rw (hk, zero-add) at_k in
        rw (found, acquire)
          (elim (ℕ_discrete j i) [
            | yes same ↦
                handle_slot-dead _ h i (take_slot t size) named
                  (ap (λ k. get_elem? (set p.slots j (take_slot t size)) k) (sym same)
                    ∙ get_elem?-set_self p.slots j (take_slot t size) t at_j)
                  (inr (
                    let q : some t ≡ some s = sym at_j ∙ ap (get_elem? p.slots) same ∙ at in
                    ground arith))
            | no other ↦
                handle_slot-dead _ h i s named
                  (get_elem?-set_ne p.slots j i (take_slot t size) other ∙ at) (inl idle)
          ])
  ])
]

-- In a well-formed pool, once the last share of a live handle is released, the acquire that
-- follows, whatever its size, does not make the handle live again: retaining or releasing it
-- answers a state error and leaves every slot alone.
pub stale_after_reuse :
    (p : Pool) (h : Handle) (i : ℕ) (s : Slot) (size : ℕ)
    → IsValid p
    → handle_slot p h ≡ some (i, s)
    → s.refcount ≡ 1
    → let p' = (acquire (release p h).1 size).2 in
      (handle_is_live p' h ≡ false)
      × ((retain p' h).0 ≡ err_state)
      × ((retain p' h).1.slots ≡ p'.slots)
      × ((release p' h).0 ≡ err_state)
      × ((release p' h).1.slots ≡ p'.slots)
stale_after_reuse p h i s size v found one =
    let (named, at, used, gen, pos) = handle_slot-inv p h i s found in
    let (_, freed, _, _) = release_last p v h i s found one in
    stale_refused _ h (acquire-dead (release p h).1 h i _ size named freed refl gen)
