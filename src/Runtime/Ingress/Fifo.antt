-- ===== src/Runtime/Ingress/Fifo.antt =====
-- The ingress service is a bounded queue, also across the wrap of its sequence numbers.
use esp8266_event_driven_fra.Prelude.{
  suc, ◌+◌, ◌-◌, ◌%◌, ◌≤◌, ◌<◌, ◌≡◌, refl, ap, ◌∙◌, inl, inr, Option, none, some, List, [], ◌∷◌,
  ◌++◌, arith, ◌==◌, leb, Bool-cases, length, get_or, inc32, sub32, u32_mod, bit_and, bit_and_15,
  if◌then◌else◌, ring, ring-push, ring-pop, length-set, length-replicate, length-tabulate,
}
use native.Mathlib.Nat.{mod-lt}
use esp8266_event_driven_fra.Core.Result.{Result, ok, err_full, err_empty}
use esp8266_event_driven_fra.Core.Msg.{Msg, zero_msg}
use esp8266_event_driven_fra.Runtime.Ingress.Service.{
  Ingress, capacity, mask, pending, init, push, pop,
}

module _ {S : Type 0} where
  -- The messages not yet popped, oldest first.
  abbrev pub contents : Ingress S → List (Msg S)
  contents g = ring g.queue capacity zero_msg (g.read_seq % capacity) (pending g)

  pub record IsValid (g : Ingress S) : Type 0 where
    pub array : length g.queue ≡ capacity
    pub write_word : g.write_seq < u32_mod
    pub read_word : g.read_seq < u32_mod
    pub within : pending g ≤ capacity

  -- A queue of at most 16 messages.
  abbrev pub offer : List (Msg S) → Msg S → Result × List (Msg S)
  offer q m = if leb capacity (length q) then (err_full, q) else (ok, q ++ m ∷ [])

  abbrev pub take_first : List (Msg S) → Result × Option (Msg S) × List (Msg S)
  take_first [] = (err_empty, none, [])
  take_first (m ∷ q) = (ok, some m, q)

  length-contents : (g : Ingress S) → length (contents g) ≡ pending g
  unfolding ring
  length-contents g = length-tabulate _ (pending g)

  contents-nil : (g : Ingress S) → pending g ≡ 0 → contents g ≡ []
  unfolding ring
  contents-nil g e = rw e refl

  pub init-IsValid : IsValid init
  unfolding init
  init-IsValid = record {
    array = length-replicate capacity (zero_msg {S = S});
    write_word = omega arith;
    read_word = omega arith;
    within = omega arith;
  }

  -- A push into a well-formed ingress service answers as a queue of 16 messages does and leaves
  -- what it leaves, whatever the sequence numbers, which may wrap.
  pub push-offer :
      (g : Ingress S) (m : Msg S)
      → IsValid g
      → let (rc, g') = push g m in ((rc, contents g') ≡ offer (contents g) m) × IsValid g'
  unfolding push
  push-offer g m v = elim (Bool-cases (leb capacity (pending g))) [
    | inl full ↦
        rw (full, length-contents g, full, push)
          (
            refl,
            record {
              array = v.array;
              write_word = v.write_word;
              read_word = v.read_word;
              within = v.within;
            },
          )
    | inr room ↦
        let free : pending g < 16 = ground arith in
        let word = v.write_word in
        let slot : bit_and g.write_seq mask ≡ (g.read_seq % capacity + pending g) % capacity =
          bit_and_15 g.write_seq ∙ omega (arith, v.read_word) in
        let more : sub32 (inc32 g.write_seq) g.read_seq ≡ suc (pending g) =
          omega (arith, v.read_word) in
        rw (room, length-contents g, room, push, slot, more)
          (
            ap (λ q. (ok, q))
                (ring-push g.queue capacity zero_msg (omega (arith, v.array))
                  (g.read_seq % capacity) (pending g) m free),
            record {
              array = length-set g.queue _ m ∙ v.array;
              write_word = mod-lt (g.write_seq + 1) (omega arith);
              read_word = v.read_word;
              within = omega arith;
            },
          )
  ]

  -- A pop from a well-formed ingress service hands out the oldest message and keeps the others in
  -- order, also across the wrap of the sequence numbers; an empty one says so.
  pub pop-take_first :
      (g : Ingress S)
      → IsValid g
      → let (rc, out, g') = pop g in ((rc, out, contents g') ≡ take_first (contents g)) × IsValid g'
  unfolding pop
  pop-take_first g v = elim (Bool-cases (pending g == 0)) [
    | inl idle ↦ rw (idle, pop) (rw (contents-nil g (ground arith)) (refl, v))
    | inr some_left ↦
        let word = v.write_word in
        let here : 0 < pending g = ground arith in
        let n : pending g ≡ suc (pending g - 1) = omega arith in
        let less : sub32 g.write_seq (inc32 g.read_seq) ≡ pending g - 1 =
          omega (arith, v.read_word) in
        let next : inc32 g.read_seq % capacity ≡ (g.read_seq % capacity + 1) % capacity =
          omega arith in
        let split : contents g
            ≡ get_or g.queue (g.read_seq % capacity) zero_msg
              ∷ ring g.queue capacity zero_msg ((g.read_seq % capacity + 1) % capacity)
                  (pending g - 1) =
          ap (ring g.queue capacity zero_msg (g.read_seq % capacity)) n
          ∙ ring-pop g.queue capacity zero_msg (g.read_seq % capacity) (pending g - 1)
              (mod-lt g.read_seq (omega arith)) in
        rw (split, some_left, pop, bit_and_15 g.read_seq, less, next)
          (
            refl,
            record {
              array = v.array;
              write_word = v.write_word;
              read_word = mod-lt (g.read_seq + 1) (omega arith);
              within = omega (arith, less, v.within);
            },
          )
  ]
