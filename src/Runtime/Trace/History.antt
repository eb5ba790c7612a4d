-- ===== src/Runtime/Trace/History.antt =====
-- A trace ring keeps the last records in the order in which they came.
use esp8266_event_driven_fra.Prelude.{
  ℕ, zero, suc, ◌+◌, ◌-◌, ◌%◌, ◌≤◌, ◌<◌, ◌≡◌, refl, sym, ap, ◌∙◌, inl, inr, List, [], ◌∷◌, ◌++◌,
  arith, ◌==◌, Bool-cases, length, get_or, set, take, drop, inc32, if◌then◌else◌, ring, ring-push,
  ring-pop, length-set, length-replicate,
}
use native.Mathlib.Nat.{mod-lt, mod-add-mod}
use esp8266_event_driven_fra.Core.Result.{ok}
use esp8266_event_driven_fra.Runtime.Trace.Buffer.{
  TraceRecord, TraceRing, capacity, zero_record, init, record_event, drain, clear,
}

-- The records held, oldest first.
abbrev pub held : TraceRing → List TraceRecord
held t = ring t.records capacity zero_record t.head t.count

pub record IsValid (t : TraceRing) : Type 0 where
  pub array : length t.records ≡ capacity
  pub head_in : t.head < capacity
  pub within : t.count ≤ capacity

abbrev tail_of : List TraceRecord → List TraceRecord
tail_of [] = []
tail_of (r ∷ rs) = rs

-- What a history of at most 32 records keeps of one record more.
abbrev pub keep_last : ℕ → List TraceRecord → TraceRecord → List TraceRecord
keep_last n rs r = if n == capacity then tail_of (rs ++ r ∷ []) else rs ++ r ∷ []

pub init-IsValid : IsValid init
unfolding init
init-IsValid = record {
  array = length-replicate capacity zero_record;
  head_in = omega arith;
  within = omega arith;
}

-- Recording into a well-formed trace ring succeeds, keeps it well formed and adds the record at
-- the end of those held; a full ring loses its oldest record for it and counts the loss.
pub record_event-held :
    (t : TraceRing) (r : TraceRecord)
    → IsValid t
    → let (rc, t') = record_event t r in
      (rc ≡ ok)
      × IsValid t'
      × (held t' ≡ keep_last t.count (held t) r)
      × (t'.dropped ≡ (if t.count == capacity then inc32 t.dropped else t.dropped))
unfolding record_event
record_event-held t r v = elim (Bool-cases (t.count == capacity)) [
  | inl full ↦
      let n : t.count ≡ 32 = ground arith in
      rw (full, record_event)
        (
          refl,
          record {
            array = length-set t.records t.head r ∙ v.array;
            head_in = mod-lt (t.head + 1) (omega arith);
            within = v.within;
          },
          overwrite t r v n,
          refl,
        )
  | inr room ↦
      let n : t.count < 32 = ground (arith, v.within) in
      rw (room, record_event)
        (
          refl,
          record {
            array = length-set t.records ((t.head + t.count) % capacity) r ∙ v.array;
            head_in = v.head_in;
            within = omega arith;
          },
          append t r v n,
          refl,
        )
]
  where
    append :
        (t : TraceRing) (r : TraceRecord)
        → IsValid t
        → t.count < capacity
        → ring
            (set t.records ((t.head + t.count) % capacity) r)
            capacity
            zero_record
            t.head
            (t.count + 1)
          ≡ held t ++ r ∷ []
    append t r v h =
        ap (ring (set t.records ((t.head + t.count) % capacity) r) capacity zero_record t.head)
          (omega arith)
        ∙ ring-push t.records capacity zero_record (omega (arith, v.array)) t.head t.count r h

    overwrite :
        (t : TraceRing) (r : TraceRecord)
        → IsValid t
        → t.count ≡ 32
        → ring (set t.records t.head r) capacity zero_record ((t.head + 1) % capacity) t.count
          ≡ tail_of (held t ++ r ∷ [])
    overwrite t r v full =
        ap (ring (set t.records t.head r) capacity zero_record ((t.head + 1) % capacity)) full
        ∙ ap (λ i. ring (set t.records i r) capacity zero_record ((t.head + 1) % capacity) 32)
            (sym (mod-add-mod (t.head + 1) capacity 31 ∙ omega (arith, v.head_in)))
        ∙ ring-push t.records capacity zero_record (omega (arith, v.array))
            ((t.head + 1) % capacity) 31 r (omega arith)
        ∙ ap (λ q. tail_of (q ++ r ∷ []))
            (sym (ring-pop t.records capacity zero_record t.head 31 v.head_in)
              ∙ ap (ring t.records capacity zero_record t.head) (sym full))

nothing : (t : TraceRing) → t.count ≡ 0 → held t ≡ []
unfolding ring
nothing t e = rw e refl

-- Draining at most n records from a well-formed trace ring takes the oldest ones out, in order,
-- and leaves the others in a well-formed ring.
pub drain-held :
    (n : ℕ) (t : TraceRing)
    → IsValid t
    → let (out, t') = drain t n in
      (out ≡ take n (held t)) × (held t' ≡ drop n (held t)) × IsValid t' × (t'.dropped ≡ t.dropped)
unfolding drain
drain-held zero t v = (refl, refl, v, refl)
drain-held (suc n) t v = elim (Bool-cases (t.count == 0)) [
  | inl idle ↦
      let e : t.count ≡ 0 = ground arith in
      let none_held : held t ≡ [] = nothing t e in
      rw (none_held, idle, drain, none_held) (refl, refl, v, refl)
  | inr some_left ↦
      let e : t.count ≡ suc (t.count - 1) = ground arith in
      let t₁ : TraceRing = record t { head = (t.head + 1) % capacity; count = t.count - 1 } in
      let v₁ : IsValid t₁ = record {
        array = v.array;
        head_in = mod-lt (t.head + 1) (omega arith);
        within = omega (arith, v.within);
      } in
      let (first, rest, valid, kept) = drain-held n t₁ v₁ in
      let split : held t ≡ get_or t.records t.head zero_record ∷ held t₁ =
        ap (ring t.records capacity zero_record t.head) e
        ∙ ring-pop t.records capacity zero_record t.head (t.count - 1) v.head_in in
      rw (split, some_left, drain)
        (ap (λ q. get_or t.records t.head zero_record ∷ q) first, rest, valid, kept)
]

pub clear-held : (t : TraceRing) → held (clear t) ≡ []
unfolding clear ring
clear-held t = refl
