-- ===== src/Runtime/Outbox/Limits.antt =====
-- The outbox is a queue of at most 8 items with limits by category.
use esp8266_event_driven_fra.Prelude.{
  ℕ, suc, ◌+◌, ◌%◌, ◌<◌, ◌≡◌, refl, sym, ap, ◌∙◌, inl, inr, not, ◌&&◌, Option, none, some, List, [],
  ◌∷◌, ◌++◌, arith, ◌==◌, leb, ltb, Bool-cases, length, set, inc32, sub32, bit_and, bit_and_7,
  if◌then◌else◌, ring, ring-push, length-set,
}
use native.Mathlib.Nat.{mod-lt}
use esp8266_event_driven_fra.Core.Result.{Result, ok, err_full, err_empty}
use esp8266_event_driven_fra.Runtime.Outbox.Items.{
  Category, same, update, Policy, Item, Outbox, capacity, mask, zero_item, at_limit, pending,
  written, advance, drop_head, append, push, pop,
}
use esp8266_event_driven_fra.Runtime.Outbox.Stored.{
  set-Buffers, IsReadable, item_for, stale, written-item_for, is_reached, at_limit-is_reached,
}
use esp8266_event_driven_fra.Runtime.Outbox.Held.{
  contents, count_in, IsValid, count_in-append, count_in-le, same_eq, length-contents, advance_lem,
}

abbrev pub offer_room : Item → List Item → Result × List Item
offer_room x q = if leb 8 (length q) then (err_full, q) else (ok, q ++ x ∷ [])

abbrev pub without_oldest : List Item → List Item
without_oldest [] = []
without_oldest (x ∷ q) = q

-- A queue whose category is at its limit refuses an item, or gives up its oldest item, of whatever
-- category, for it, as the policy says; a full queue refuses every other item.
abbrev pub offer : Policy → Item → List Item → Result × List Item
offer policy x q =
    let limited = is_reached (policy.category_limit x.category) (count_in x.category q) in
    if limited && not (policy.drop_oldest x.category && ltb 0 (length q))
    then (err_full, q)
    else offer_room x (if limited then without_oldest q else q)

more_by :
    (f : Category → ℕ) (c d : Category) (q : List Item) (x : Item)
    → x.category ≡ c
    → ((e : Category) → f e ≡ count_in e q)
    → length q < capacity
    → update f c (inc32 (f c)) d ≡ count_in d (q ++ x ∷ [])
more_by f c d q x named count room = elim (Bool-cases (same c d)) [
  | inl hit ↦
      let e = same_eq c d hit in
      let le = count_in-le c q in
      rw (hit, count_in-append d q x, named, hit, ← e) (omega (arith, count c))
  | inr miss ↦ rw (miss, count_in-append d q x, named, miss) (omega (arith, count d))
]

append_lem :
    (o : Outbox) (c : Category) (payload : Option (List ℕ)) (size : ℕ)
    → IsValid o
    → length (written o c payload size).payload ≡ 64
    → let (rc, o') = append o c payload size in
      ((rc, contents o') ≡ offer_room (written o c payload size) (contents o)) × IsValid o'
unfolding append written
append_lem o c payload size v stored = elim (Bool-cases (leb capacity (pending o))) [
  | inl full ↦
      rw (full, length-contents o, full, append)
        (
          refl,
          record {
            array = v.array;
            buffers = v.buffers;
            write_word = v.write_word;
            read_word = v.read_word;
            within = v.within;
            counted = v.counted;
          },
        )
  | inr room ↦
      let free : pending o < 8 = ground arith in
      let word = v.write_word in
      let x = written o c payload size in
      let slot : bit_and o.write_seq mask ≡ (o.read_seq % capacity + pending o) % capacity =
        bit_and_7 o.write_seq ∙ omega (arith, v.read_word) in
      let more : sub32 (inc32 o.write_seq) o.read_seq ≡ suc (pending o) =
        omega (arith, v.read_word) in
      let pushed =
        ap
          (λ i. ring (set o.items i x) capacity zero_item (o.read_seq % capacity) (suc (pending o)))
          slot
        ∙ ring-push o.items capacity zero_item (omega (arith, v.array)) (o.read_seq % capacity)
            (pending o) x free in
      rw (room, length-contents o, room, append, more)
        (
          ap (λ q. (ok, q)) pushed,
          record {
            array = length-set o.items _ x ∙ v.array;
            buffers = set-Buffers o.items (bit_and o.write_seq mask) x v.buffers stored;
            write_word = mod-lt (o.write_seq + 1) (omega arith);
            read_word = v.read_word;
            within = omega (arith, more);
            counted = λ d.
                rw (more, pushed)
                  (more_by o.queued_by_category c d (contents o) x refl v.counted
                    (omega (arith, length-contents o)));
          },
        )
]

drop_head_lem :
    (o : Outbox)
    → IsValid o
    → 0 < pending o
    → (contents (drop_head o) ≡ without_oldest (contents o)) × IsValid (drop_head o)
unfolding drop_head advance
drop_head_lem o v pos =
    let (split, w, n) = advance_lem o v pos in
    (
      ap without_oldest (sym split),
      record {
        array = w.array;
        buffers = w.buffers;
        write_word = w.write_word;
        read_word = w.read_word;
        within = w.within;
        counted = w.counted;
      },
    )

push-written :
    (o : Outbox) (policy : Policy) (c : Category) (payload : Option (List ℕ)) (size : ℕ)
    → IsValid o
    → length (written o c payload size).payload ≡ 64
    → let (rc, o') = push o policy c payload size in
      ((rc, contents o') ≡ offer policy (written o c payload size) (contents o)) × IsValid o'
unfolding push written drop_head advance
push-written o policy c payload size v stored =
    let x = written o c payload size in
    let limited = at_limit policy c (o.queued_by_category c) in
    elim (Bool-cases (limited && not (policy.drop_oldest c && ltb 0 (pending o)))) [
      | inl no_room ↦
          rw
            (
              no_room,
              ← at_limit-is_reached policy c (count_in c (contents o)),
              ← v.counted c,
              length-contents o,
              no_room,
              push,
            )
            (
              refl,
              record {
                array = v.array;
                buffers = v.buffers;
                write_word = v.write_word;
                read_word = v.read_word;
                within = v.within;
                counted = v.counted;
              },
            )
      | inr let_in ↦ elim (Bool-cases limited) [
        | inl over ↦
            let (rest, w) = drop_head_lem o v (ground arith) in
            let (answer, valid) = append_lem (drop_head o) c payload size w stored in
            rw
              (
                let_in,
                ← at_limit-is_reached policy c (count_in c (contents o)),
                ← v.counted c,
                length-contents o,
                let_in,
                push,
                over,
              )
              (answer ∙ ap (offer_room x) rest, valid)
        | inr under ↦
            let (answer, valid) = append_lem o c payload size v stored in
            rw
              (
                let_in,
                ← at_limit-is_reached policy c (count_in c (contents o)),
                ← v.counted c,
                length-contents o,
                let_in,
                push,
                under,
              )
              (answer, valid)
      ]
    ]

-- A push into a well-formed outbox, of any category and of a payload that holds the bytes to copy,
-- at most 64 of its size, or of none, also across the wrap of the sequence numbers, answers as the
-- queue with limits does and leaves what it leaves. A category is at its limit when the limit is not
-- 0 and at least that many of its items are queued; the push is then refused as full unless the
-- policy drops the oldest and an item is queued, and else the oldest item of the queue, of whatever
-- category, makes room; with 8 items left it is refused. The item queued last carries the category,
-- the size cut to 64 and that many bytes of the payload, in front of what its buffer held. The
-- outbox stays well formed: the count of each category is the number of its items.
pub push_lem :
    (o : Outbox) (policy : Policy) (c : Category) (payload : Option (List ℕ)) (size : ℕ)
    → IsValid o
    → IsReadable payload size
    → let (rc, o') = push o policy c payload size in
      ((rc, contents o') ≡ offer policy (item_for c payload size (stale o)) (contents o))
      × IsValid o'
unfolding push
push_lem o policy c payload size v readable =
    let (same, stored) = written-item_for o c payload size v.buffers readable in
    let (answer, valid) = push-written o policy c payload size v stored in
    (answer ∙ ap (λ x. offer policy x (contents o)) same, valid)

abbrev pub take_item : List Item → Result × Option Item × List Item
take_item [] = (err_empty, none, [])
take_item (x ∷ q) = (ok, some x, q)

contents-nil : (o : Outbox) → pending o ≡ 0 → contents o ≡ []
unfolding ring
contents-nil o e = rw e refl

-- A pop from a well-formed outbox hands out the oldest item, counts its category down and keeps
-- the others in order; an empty one says so.
pub pop_lem :
    (o : Outbox)
    → IsValid o
    → let (rc, out, o') = pop o in ((rc, out, contents o') ≡ take_item (contents o)) × IsValid o'
unfolding pop
pop_lem o v = elim (Bool-cases (pending o == 0)) [
  | inl idle ↦ rw (idle, pop) (rw (contents-nil o (ground arith)) (refl, v))
  | inr some_left ↦
      let (split, w, n) = advance_lem o v (ground arith) in
      rw (some_left, pop) (ap take_item (sym split), w)
]
