-- ===== src/Runtime/Outbox/Stored.antt =====
-- What a push of runtime/src/ev_network_outbox.c stores for a payload, and when a limit is reached.
use esp8266_event_driven_fra.Prelude.{
  ℕ, zero, suc, min, ◌%◌, ◌≤◌, ◌≡◌, refl, ap, ◌∙◌, Bool, false, not, ◌&&◌, Option, none, some, List,
  [], ◌∷◌, ◌++◌, arith, ◌==◌, leb, ltb, length, take, drop, get_or, set, bit_and_7, if◌then◌else◌,
}
use esp8266_event_driven_fra.Runtime.Outbox.Items.{
  Category, Policy, Item, Outbox, zero_item, at_limit, written, copy,
}

-- Each slot has a buffer of 64 bytes.
abbrev pub Buffers : List Item → Type 0
Buffers [] = Unit
Buffers (x ∷ items) = (length x.payload ≡ 64) × Buffers items

pub get_or-Buffers :
    (items : List Item) (i : ℕ) → Buffers items → length (get_or items i zero_item).payload ≡ 64
get_or-Buffers [] i b = refl
get_or-Buffers (x ∷ items) zero b = b.0
get_or-Buffers (x ∷ items) (suc i) b = get_or-Buffers items i b.1

pub set-Buffers :
    (items : List Item) (i : ℕ) (x : Item)
    → Buffers items
    → length x.payload ≡ 64
    → Buffers (set items i x)
set-Buffers [] i x b e = b
set-Buffers (y ∷ items) zero x b e = (e, b.1)
set-Buffers (y ∷ items) (suc i) x b e = (b.0, set-Buffers items i x b.1 e)

-- The caller's payload holds the bytes that are copied.
abbrev pub IsReadable : Option (List ℕ) → ℕ → Type 0
IsReadable none size = Unit
IsReadable (some bytes) size = min size 64 ≤ length bytes

-- The item that a push queues: at most 64 bytes of the payload, in front of what its buffer held, or
-- that alone without a payload.
abbrev pub item_for : Category → Option (List ℕ) → ℕ → List ℕ → Item
item_for c none size old = record { category = c; size = min size 64; payload = old }
item_for c (some bytes) size old = record {
  category = c;
  size = min size 64;
  payload = take (min size 64) bytes ++ drop (min size 64) old;
}

-- What the buffer of the next item holds.
abbrev pub stale : Outbox → List ℕ
stale o = (get_or o.items (o.write_seq % 8) zero_item).payload

copy-take :
    (n : ℕ) (from to : List ℕ)
    → n ≤ length from
    → n ≤ length to
    → (copy n from to ≡ take n from ++ drop n to) × (length (copy n from to) ≡ length to)
copy-take zero from to h k = (refl, refl)
copy-take (suc n) [] to h k = absurd (omega arith)
copy-take (suc n) (b ∷ from) [] h k = absurd (omega arith)
copy-take (suc n) (b ∷ from) (t ∷ to) h k =
    let (same, size) = copy-take n from to (omega arith) (omega arith) in
    (ap (λ q. b ∷ q) same, ap suc size)

pub written-item_for :
    (o : Outbox) (c : Category) (payload : Option (List ℕ)) (size : ℕ)
    → Buffers o.items
    → IsReadable payload size
    → (written o c payload size ≡ item_for c payload size (stale o))
      × (length (written o c payload size).payload ≡ 64)
unfolding written
written-item_for o c none size buffers readable =
    let n : (if ltb 64 size then 64 else size) ≡ min size 64 = ground arith in
    rw (n, bit_and_7 o.write_seq) (refl, get_or-Buffers o.items (o.write_seq % 8) buffers)
written-item_for o c (some bytes) size buffers readable =
    let n : (if ltb 64 size then 64 else size) ≡ min size 64 = ground arith in
    let old = get_or-Buffers o.items (o.write_seq % 8) buffers in
    let (same, held) = copy-take (min size 64) bytes (stale o) readable (omega (arith, old)) in
    rw (n, bit_and_7 o.write_seq)
      (ap (λ q. record { category = c; size = min size 64; payload = q }) same, held ∙ old)

-- A category has a limit unless it is 0, and is at it from that many items on.
abbrev pub is_reached : ℕ → ℕ → Bool
is_reached zero n = false
is_reached (suc k) n = ltb k n

pub at_limit-is_reached :
    (policy : Policy) (c : Category) (n : ℕ)
    → at_limit policy c n ≡ is_reached (policy.category_limit c) n
at_limit-is_reached policy c n = go (policy.category_limit c)
  where
    go : (k : ℕ) → (not (k == 0) && leb k n) ≡ is_reached k n
    go zero = refl
    go (suc k) = ground arith
