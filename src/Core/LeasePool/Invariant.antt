-- ===== src/Core/LeasePool/Invariant.antt =====
-- Well-formedness of the lease pool, and that every operation keeps it.
use esp8266_event_driven_fra.Prelude.{
  ℕ, zero, suc, ◌+◌, ◌≤◌, ◌<◌, ◌≡◌, inl, inr, refl, true, false, ◌||◌, Option, none, some, List, [],
  ◌∷◌, arith, length, get_elem?, set, ltb, sub32, u32_mod, length-set, length-tabulate, AllFrom,
  AllFrom-get, AllFrom-set, AllFrom-tabulate, Option-cases, Bool-cases, subst, ◌∙◌, ◌==◌, tabulate,
}
use native.Mathlib.Nat.{zero-add}
use esp8266_event_driven_fra.Core.Result.{ok}
use esp8266_event_driven_fra.Core.LeasePool.Slots.{
  Slot, Stats, Pool, Handle, handle_slot, count_stale, init, init_slot, first_free,
}
use esp8266_event_driven_fra.Core.LeasePool.Shares.{acquire, retain, release}

abbrev pub occupied : Slot → ℕ
occupied s = elim (s.in_use) [ true ↦ 1 | false ↦ 0 ]

abbrev pub count_in_use : List Slot → ℕ
count_in_use [] = 0
count_in_use (s ∷ ss) = occupied s + count_in_use ss

-- A slot stands at its index; it has shares and a payload within the slot's size exactly while it is
-- in use.
pub record IsSlot (slot_size : ℕ) (i : ℕ) (s : Slot) : Type 0 where
  pub index : s.slot_index ≡ i
  pub busy : s.in_use ≡ true → (0 < s.refcount) × (s.payload_size ≤ slot_size)
  pub idle : s.in_use ≡ false → (s.refcount ≡ 0) × (s.payload_size ≡ 0)
  pub word : s.refcount < u32_mod

pub record IsValid (p : Pool) : Type 0 where
  pub some_slots : 0 < p.slot_count
  pub some_bytes : 0 < p.slot_size
  pub small : p.slot_count < u32_mod
  pub array : length p.slots ≡ p.slot_count
  pub slots_ok : AllFrom (IsSlot p.slot_size) 0 p.slots
  pub counted : p.stats.in_use ≡ count_in_use p.slots

count_in_use-le : (ss : List Slot) → count_in_use ss ≤ length ss
count_in_use-le [] = omega arith
count_in_use-le (s ∷ ss) = ground (arith, count_in_use-le ss)

count_in_use-set :
    (ss : List Slot) (i : ℕ) (s t : Slot)
    → get_elem? ss i ≡ some s
    → count_in_use (set ss i t) + occupied s ≡ count_in_use ss + occupied t
count_in_use-set [] i s t h = absurd (cc h)
count_in_use-set (x ∷ ss) zero s t h = ground arith
count_in_use-set (x ∷ ss) (suc i) s t h = ground (arith, count_in_use-set ss i s t h)

count_in_use_pos :
    (ss : List Slot) (i : ℕ) (s : Slot)
    → get_elem? ss i ≡ some s
    → s.in_use ≡ true
    → 0 < count_in_use ss
count_in_use_pos [] i s e h = absurd (cc e)
count_in_use_pos (x ∷ ss) zero s e h = ground arith
count_in_use_pos (x ∷ ss) (suc i) s e h = ground (arith, count_in_use_pos ss i s)

-- What a live handle stands for.
pub handle_slot-inv :
    (p : Pool) (h : Handle) (i : ℕ) (s : Slot)
    → handle_slot p h ≡ some (i, s)
    → (h.slot ≡ some i)
      × (get_elem? p.slots i ≡ some s)
      × (s.in_use ≡ true)
      × (s.generation ≡ h.generation)
      × (0 < s.refcount)
unfolding handle_slot
handle_slot-inv p h i s e = ground arith

pub first_free-inv :
    (ss : List Slot) (i j : ℕ) (s : Slot)
    → first_free ss i ≡ some (j, s)
    → (k : ℕ) × (j ≡ i + k) × (get_elem? ss k ≡ some s) × (s.in_use ≡ false)
unfolding first_free
first_free-inv [] i j s e = absurd (cc e)
first_free-inv (x ∷ ss) i j s e = elim (Bool-cases x.in_use) [
  | inl q ↦
      let (k, hj, hk, idle) = first_free-inv ss (suc i) j s (ground arith) in
      (suc k, omega arith, hk, idle)
  | inr q ↦ (0, ground arith, ground arith, ground arith)
]

-- Every slot is taken where the search finds none.
pub first_free-none :
    (ss : List Slot) (i : ℕ) → first_free ss i ≡ none → count_in_use ss ≡ length ss
unfolding first_free
first_free-none [] i e = refl
first_free-none (x ∷ ss) i e = ground (arith, first_free-none ss (suc i))

pub first_free-some :
    (ss : List Slot) (i j : ℕ) (s : Slot)
    → first_free ss i ≡ some (j, s)
    → count_in_use ss < length ss
unfolding first_free
first_free-some [] i j s e = absurd (cc e)
first_free-some (x ∷ ss) i j s e =
    ground (arith, first_free-some ss (suc i) j s, count_in_use-le ss)

module _ (p : Pool) (v : IsValid p) where
  set-slots_ok :
      (i : ℕ) (t : Slot) → IsSlot p.slot_size i t → AllFrom (IsSlot p.slot_size) 0 (set p.slots i t)
  set-slots_ok i t h =
      AllFrom-set (IsSlot p.slot_size) 0 i p.slots t v.slots_ok
        (subst (λ j. IsSlot p.slot_size j t) (omega arith) h)

  pub slot_at : (i : ℕ) (s : Slot) → get_elem? p.slots i ≡ some s → IsSlot p.slot_size i s
  slot_at i s e =
      subst (λ j. IsSlot p.slot_size j s) (omega arith)
        (AllFrom-get (IsSlot p.slot_size) 0 i p.slots s v.slots_ok e)

  -- A write of one slot keeps the pool well formed if the slot itself stays so and the counter of
  -- slots in use follows.
  write_slot-IsValid :
      (i : ℕ) (s t : Slot) (bytes : List ℕ) (st : Stats)
      → get_elem? p.slots i ≡ some s
      → IsSlot p.slot_size i t
      → st.in_use + occupied s ≡ p.stats.in_use + occupied t
      → IsValid (record p { slots = set p.slots i t; bytes = bytes; stats = st })
  write_slot-IsValid i s t bytes st e ht hc = record {
    some_slots = v.some_slots;
    some_bytes = v.some_bytes;
    small = v.small;
    array = length-set p.slots i t ∙ v.array;
    slots_ok = set-slots_ok i t ht;
    counted = omega (arith, count_in_use-set p.slots i s t e, v.counted);
  }

  count_stale-IsValid : (o : Option ℕ) → IsValid (count_stale p o)
  unfolding count_stale
  count_stale-IsValid none = v
  count_stale-IsValid (some i) = record {
    some_slots = v.some_slots;
    some_bytes = v.some_bytes;
    small = v.small;
    array = v.array;
    slots_ok = v.slots_ok;
    counted = v.counted;
  }

  -- A retain leaves a well-formed pool well formed, where the count of shares of a live handle
  -- does not wrap.
  pub retain-IsValid :
      (h : Handle)
      → ((i : ℕ) (s : Slot) → handle_slot p h ≡ some (i, s) → s.refcount + 1 < u32_mod)
      → IsValid (retain p h).1
  unfolding retain
  retain-IsValid h fits = elim (Option-cases (handle_slot p h)) [
    | inl e ↦ rw (e, retain) (count_stale-IsValid h.slot)
    | inr ((i, s), e) ↦
        let (_, at, used, _, pos) = handle_slot-inv p h i s e in
        let ok_s = slot_at i s at in
        let room = fits i s e in
        rw (e, retain) (write_slot-IsValid i s _ p.bytes _ at (ground arith) (ground arith))
  ]

  -- A release leaves a well-formed pool well formed, whatever the handle.
  pub release-IsValid : (h : Handle) → IsValid (release p h).1
  unfolding release
  release-IsValid h = elim (Option-cases (handle_slot p h)) [
    | inl e ↦ rw (e, release) (count_stale-IsValid h.slot)
    | inr ((i, s), e) ↦
        let (_, at, used, _, pos) = handle_slot-inv p h i s e in
        let ok_s = slot_at i s at in
        rw (e, release)
          (elim (Bool-cases (sub32 s.refcount 1 == 0)) [
            | inl last ↦ rw last (
                write_slot-IsValid i s _ _ _ at (ground arith) (
                  ground (
                    arith,
                    count_in_use-le p.slots,
                    v.counted,
                    v.array,
                    v.small,
                    count_in_use_pos p.slots i s,
                  )))
            | inr more ↦
                rw more (write_slot-IsValid i s _ p.bytes _ at (ground arith) (ground arith))
          ])
  ]

  -- An acquire leaves a well-formed pool well formed, whether or not it finds a slot.
  pub acquire-IsValid : (size : ℕ) → IsValid (acquire p size).2
  unfolding acquire
  acquire-IsValid size = elim (Bool-cases (ltb p.slot_size size)) [
    | inl big ↦ rw big v
    | inr fits ↦ rw fits (elim (Option-cases (first_free p.slots 0)) [
      | inl e ↦
          rw (e, acquire)
            (record {
              some_slots = v.some_slots;
              some_bytes = v.some_bytes;
              small = v.small;
              array = v.array;
              slots_ok = v.slots_ok;
              counted = v.counted;
            })
      | inr ((i, s), e) ↦
          let (k, hk, at, idle) = first_free-inv p.slots 0 i s e in
          let at' : get_elem? p.slots i ≡ some s = rw (hk, zero-add) at in
          let ok_s = slot_at i s at' in
          rw (e, acquire)
            (write_slot-IsValid i s _ _ _ at' (ground arith)
              (ground (arith, first_free-some p.slots 0 i s e)))
    ])
  ]

init_slot-IsSlot : (m i : ℕ) → IsSlot m i (init_slot i)
unfolding init_slot
init_slot-IsSlot m i = ground arith

count_in_use-tabulate :
    (f : ℕ → Slot) (n : ℕ) → ((k : ℕ) → (f k).in_use ≡ false) → count_in_use (tabulate f n) ≡ 0
count_in_use-tabulate f zero h = refl
count_in_use-tabulate f (suc n) h =
    let rest = count_in_use-tabulate (λ k. f (suc k)) n (λ k. h (suc k)) in ground (arith, h 0)

-- A pool that `ev_lease_pool_init` accepts is well formed.
pub init-IsValid :
    (slot_count slot_size : ℕ) {p : Pool}
    → slot_count < u32_mod
    → init slot_count slot_size ≡ (ok, some p)
    → IsValid p
unfolding init init_slot
init-IsValid n m {p} h e = elim (Bool-cases ((n == 0) || (m == 0))) [
  | inl bad ↦ absurd (ground arith)
  | inr good ↦ ground (
    arith,
    length-tabulate init_slot n,
    AllFrom-tabulate (IsSlot m) 0 n init_slot
        (λ k. subst (λ j. IsSlot m j (init_slot k)) (omega arith) (init_slot-IsSlot m k)),
    count_in_use-tabulate init_slot n (λ k. refl),
  )
]
