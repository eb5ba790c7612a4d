-- ===== src/Runtime/Outbox/Held.antt =====
-- What an outbox holds, also across the wrap of its sequence numbers, when it is well formed, and its
-- head.
use esp8266_event_driven_fra.Prelude.{
  ℕ, suc, ◌+◌, ◌-◌, ◌%◌, ◌≤◌, ◌<◌, ◌≡◌, refl, ap, ◌∙◌, inl, inr, true, List, [], ◌∷◌, ◌++◌, arith,
  Bool-cases, length, get_or, inc32, sub32, u32_mod, bit_and, bit_and_7, if◌then◌else◌, ring,
  ring-pop, length-tabulate,
}
use native.Mathlib.Nat.{mod-lt}
use esp8266_event_driven_fra.Runtime.Outbox.Items.{
  Category, same, update, Item, Outbox, capacity, mask, zero_item, pending, advance,
}
use esp8266_event_driven_fra.Runtime.Outbox.Stored.{Buffers}

-- The items not yet popped, oldest first.
abbrev pub contents : Outbox → List Item
contents o = ring o.items capacity zero_item (o.read_seq % capacity) (pending o)

abbrev pub count_in : Category → List Item → ℕ
count_in c [] = 0
count_in c (x ∷ q) = (if same x.category c then 1 else 0) + count_in c q

pub record IsValid (o : Outbox) : Type 0 where
  pub array : length o.items ≡ capacity
  pub buffers : Buffers o.items
  pub write_word : o.write_seq < u32_mod
  pub read_word : o.read_seq < u32_mod
  pub within : pending o ≤ capacity
  pub counted : (c : Category) → o.queued_by_category c ≡ count_in c (contents o)

pub count_in-append :
    (c : Category) (q : List Item) (x : Item)
    → count_in c (q ++ x ∷ []) ≡ count_in c q + (if same x.category c then 1 else 0)
count_in-append c [] x = omega arith
count_in-append c (y ∷ q) x = omega (arith, count_in-append c q x)

pub count_in-le : (c : Category) (q : List Item) → count_in c q ≤ length q
count_in-le c [] = omega arith
count_in-le c (y ∷ q) = ground (arith, count_in-le c q)

pub same_eq : (c d : Category) → same c d ≡ true → c ≡ d
same_eq c d h = ground arith

pub same_refl : (c : Category) → same c c ≡ true
same_refl c = ground arith

pub length-contents : (o : Outbox) → length (contents o) ≡ pending o
unfolding ring
length-contents o = length-tabulate _ (pending o)

-- The head and the rest, of an outbox that is not empty.
pub advance_lem :
    (o : Outbox)
    → IsValid o
    → 0 < pending o
    → (contents o ≡ get_or o.items (bit_and o.read_seq mask) zero_item ∷ contents (advance o))
      × IsValid (advance o)
      × (pending (advance o) ≡ pending o - 1)
unfolding advance
advance_lem o v pos =
    let word = v.write_word in
    let less : sub32 o.write_seq (inc32 o.read_seq) ≡ pending o - 1 = omega (arith, v.read_word) in
    let n : pending o ≡ suc (pending o - 1) = omega arith in
    let x = get_or o.items (o.read_seq % capacity) zero_item in
    let rest = ring o.items capacity zero_item (inc32 o.read_seq % capacity) (pending o - 1) in
    let next : (o.read_seq % capacity + 1) % capacity ≡ inc32 o.read_seq % capacity = omega arith in
    let split : contents o ≡ x ∷ rest =
      ap (ring o.items capacity zero_item (o.read_seq % capacity)) n
      ∙ ring-pop o.items capacity zero_item (o.read_seq % capacity) (pending o - 1)
          (mod-lt o.read_seq (omega arith))
      ∙ ap (λ h. x ∷ ring o.items capacity zero_item h (pending o - 1)) next in
    let count : (c : Category)
        → o.queued_by_category c ≡ (if same x.category c then 1 else 0) + count_in c rest =
      λ c. v.counted c ∙ ap (count_in c) split in
    rw (bit_and_7 o.read_seq, less)
      (
        split,
        record {
          array = v.array;
          buffers = v.buffers;
          write_word = v.write_word;
          read_word = mod-lt (o.read_seq + 1) (omega arith);
          within = omega (arith, less, v.within);
          counted = λ c. rw less (less_one o x rest c count);
        },
        refl,
      )
  where
    less_one :
        (o : Outbox) (x : Item) (rest : List Item) (c : Category)
        → ((d : Category)
            → o.queued_by_category d ≡ (if same x.category d then 1 else 0) + count_in d rest)
        → update o.queued_by_category x.category (o.queued_by_category x.category - 1) c
          ≡ count_in c rest
    less_one o x rest c count = elim (Bool-cases (same x.category c)) [
      | inl hit ↦
          let e = same_eq x.category c hit in
          rw hit
            (let k = count x.category in let r = same_refl x.category in rw (← e) (ground arith))
      | inr miss ↦ rw miss (let k = count c in ground arith)
    ]
