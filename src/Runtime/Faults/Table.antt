-- ===== src/Runtime/Faults/Table.antt =====
-- The fault registry is a table of at most 16 distinct faults, each with the number of times that
-- it was emitted.
use esp8266_event_driven_fra.Prelude.{
  ℕ, zero, suc, ◌≤◌, ◌≡◌, refl, sym, ap, ◌∙◌, ◌⊎◌, inl, inr, true, false, none, some, List, [], ◌∷◌,
  ◌++◌, arith, leb, ltb, if◌then◌else◌, Bool-cases, Option-cases, length, length-append, take, drop,
  length-drop, inc32,
}
use esp8266_event_driven_fra.Core.Result.{ok, err_full}
use esp8266_event_driven_fra.Runtime.Faults.Store.{
  Fault, Registry, capacity, same_key, count_again, emit, drain,
}

-- No record of the list has the key.
abbrev pub Fresh : Fault → List Fault → Type 0
Fresh x [] = Unit
Fresh x (r ∷ rs) = (same_key r x ≡ false) × Fresh x rs

-- No two records have the same key.
abbrev pub Distinct : List Fault → Type 0
Distinct [] = Unit
Distinct (r ∷ rs) = Fresh r rs × Distinct rs

pub record IsValid (g : Registry) : Type 0 where
  pub distinct : Distinct g.records
  pub within : length g.records ≤ capacity

-- How often a fault was emitted, by its record; 0 for a fault without record.
abbrev pub count_of : Fault → List Fault → ℕ
count_of x [] = 0
count_of x (r ∷ rs) = if same_key r x then r.counter else count_of x rs

same_key_sym : (a b : Fault) → same_key a b ≡ same_key b a
same_key_sym a b = ground arith

same_key_trans : (a b c : Fault) → same_key a b ≡ true → same_key a c ≡ same_key b c
same_key_trans a b c h = ground arith

Fresh-append :
    (x y : Fault) (rs : List Fault) → Fresh x rs → same_key y x ≡ false → Fresh x (rs ++ y ∷ [])
Fresh-append x y [] h e = (e, tt)
Fresh-append x y (r ∷ rs) h e = (h.0, Fresh-append x y rs h.1 e)

Distinct-append : (y : Fault) (rs : List Fault) → Distinct rs → Fresh y rs → Distinct (rs ++ y ∷ [])
Distinct-append y [] h f = (tt, tt)
Distinct-append y (r ∷ rs) h f =
    (Fresh-append r y rs h.0 (same_key_sym y r ∙ f.0), Distinct-append y rs h.1 f.1)

count_again-Fresh : (x : Fault) (rs : List Fault) → count_again rs x ≡ none → Fresh x rs
unfolding count_again
count_again-Fresh x [] e = tt
count_again-Fresh x (r ∷ rs) e = elim (Bool-cases (same_key r x)) [
  | inl hit ↦ absurd (ground arith)
  | inr miss ↦ (miss, count_again-Fresh x rs (ground arith))
]

-- One step of the loop: the record of the key is here, or it is in the rest.
count_again-inv :
    (x r : Fault) (rs : List Fault) {out : List Fault}
    → count_again (r ∷ rs) x ≡ some out
    → ((same_key r x ≡ true) × (out ≡ record r { counter = inc32 r.counter } ∷ rs))
      ⊎ ((same_key r x ≡ false)
          × ((rest : List Fault) × (count_again rs x ≡ some rest) × (out ≡ r ∷ rest)))
unfolding count_again
count_again-inv x r rs {out} e = elim (Bool-cases (same_key r x)) [
  | inl hit ↦ inl (hit, ground arith)
  | inr miss ↦ elim (Option-cases (count_again rs x)) [
    | inl never ↦ absurd (ground arith)
    | inr (rest, found) ↦ inr (miss, (rest, found, ground arith))
  ]
]

count_again-keeps_Fresh :
    (x y : Fault) (rs out : List Fault) → count_again rs x ≡ some out → Fresh y rs → Fresh y out
unfolding count_again
count_again-keeps_Fresh x y [] out e f = absurd (cc e)
count_again-keeps_Fresh x y (r ∷ rs) out e f = elim (count_again-inv x r rs e) [
  | inl (hit, p) ↦ rw p f
  | inr (miss, (rest, found, p)) ↦ rw p (f.0, count_again-keeps_Fresh x y rs rest found f.1)
]

count_again-keeps_Distinct :
    (x : Fault) (rs out : List Fault)
    → count_again rs x ≡ some out
    → Distinct rs
    → Distinct out × (length out ≡ length rs)
unfolding count_again
count_again-keeps_Distinct x [] out e d = absurd (cc e)
count_again-keeps_Distinct x (r ∷ rs) out e d = elim (count_again-inv x r rs e) [
  | inl (hit, p) ↦ rw p (d, refl)
  | inr (miss, (rest, found, p)) ↦
      let (d', n) = count_again-keeps_Distinct x rs rest found d.1 in
      rw p ((count_again-keeps_Fresh x r rs rest found d.0, d'), ap suc n)
]

count_again-count_of :
    (x : Fault) (rs out : List Fault)
    → count_again rs x ≡ some out
    → (count_of x out ≡ inc32 (count_of x rs))
      × ((y : Fault) → same_key x y ≡ false → count_of y out ≡ count_of y rs)
unfolding count_again
count_again-count_of x [] out e = absurd (cc e)
count_again-count_of x (r ∷ rs) out e = elim (count_again-inv x r rs e) [
  | inl (hit, p) ↦ rw p (
    rw hit refl,
    λ y ne. let far : same_key r y ≡ false = same_key_trans r x y hit ∙ ne in rw far refl,
  )
  | inr (miss, (rest, found, p)) ↦
      let (here, others) = count_again-count_of x rs rest found in
      rw p (rw miss here, λ y ne. ap (λ n. if same_key r y then r.counter else n) (others y ne))
]

count_of-append :
    (x y : Fault) (rs : List Fault)
    → same_key y x ≡ false
    → count_of x (rs ++ y ∷ []) ≡ count_of x rs
count_of-append x y [] h = rw h refl
count_of-append x y (r ∷ rs) h =
    ap (λ n. if same_key r x then r.counter else n) (count_of-append x y rs h)

count_of-Fresh :
    (x y : Fault) (rs : List Fault)
    → Fresh x rs
    → same_key y x ≡ true
    → (count_of x rs ≡ 0) × (count_of x (rs ++ y ∷ []) ≡ y.counter)
count_of-Fresh x y [] f h = (refl, rw h refl)
count_of-Fresh x y (r ∷ rs) f h = let (a, b) = count_of-Fresh x y rs f.1 h in (rw f.0 a, rw f.0 b)

same_key_refl : (x : Fault) → same_key x x ≡ true
same_key_refl x = ground arith

-- Emitting into a well-formed registry keeps its records distinct and at most 16. Where it answers
-- ok the fault is counted once more on 32 bits, and no other count changes; where it answers full
-- the fault had no record and the table had 16, which stay as they were.
pub emit-count_of :
    (g : Registry) (x : Fault)
    → IsValid g
    → let (rc, g') = emit g x in
      IsValid g'
      × ((y : Fault) → same_key x y ≡ false → count_of y g'.records ≡ count_of y g.records)
      × (((rc ≡ ok) × (count_of x g'.records ≡ inc32 (count_of x g.records)))
          ⊎ ((rc ≡ err_full)
              × (g'.records ≡ g.records)
              × Fresh x g.records
              × (length g.records ≡ capacity)))
unfolding emit
emit-count_of g x v = elim (Option-cases (count_again g.records x)) [
  | inr (out, found) ↦
      let (d, n) = count_again-keeps_Distinct x g.records out found v.distinct in
      let (here, others) = count_again-count_of x g.records out found in
      rw (found, emit)
        (record { distinct = d; within = omega (arith, v.within) }, others, inl (refl, here))
  | inl never ↦
      let f = count_again-Fresh x g.records never in
      rw (never, emit)
        (elim (Bool-cases (leb capacity (length g.records))) [
          | inl full ↦ rw full (
            record { distinct = v.distinct; within = v.within },
            λ y _. refl,
            inr (refl, refl, f, ground (arith, v.within)),
          )
          | inr room ↦
              let new : Fault = record x { counter = 1 } in
              let (none_yet, once) = count_of-Fresh x new g.records f (same_key_refl x) in
              rw room (
                record {
                  distinct = Distinct-append new g.records v.distinct (Fresh-key x new g.records f);
                  within = ground (arith, length-append g.records (new ∷ []));
                },
                λ y ne. count_of-append y new g.records ne,
                inl (refl, once ∙ rw none_yet refl),
              )
        ])
]
  where
    Fresh-key :
        (x : Fault) (new : Fault) (rs : List Fault)
        → Fresh x rs
        → Fresh (record x { counter = 1 }) rs
    Fresh-key x new [] f = tt
    Fresh-key x new (r ∷ rs) f = (f.0, Fresh-key x new rs f.1)

Fresh-drop : (x : Fault) (n : ℕ) (rs : List Fault) → Fresh x rs → Fresh x (drop n rs)
Fresh-drop x zero rs f = f
Fresh-drop x (suc n) [] f = f
Fresh-drop x (suc n) (r ∷ rs) f = Fresh-drop x n rs f.1

Distinct-drop : (n : ℕ) (rs : List Fault) → Distinct rs → Distinct (drop n rs)
Distinct-drop zero rs d = d
Distinct-drop (suc n) [] d = d
Distinct-drop (suc n) (r ∷ rs) d = Distinct-drop n rs d.1

take-past : (n : ℕ) (rs : List Fault) → length rs ≤ n → (take n rs ≡ rs) × (drop n rs ≡ [])
take-past zero [] h = (refl, refl)
take-past zero (r ∷ rs) h = absurd (omega arith)
take-past (suc n) [] h = (refl, refl)
take-past (suc n) (r ∷ rs) h = let (a, b) = take-past n rs (omega arith) in (ap (λ q. r ∷ q) a, b)

-- Draining at most n faults from a well-formed registry hands out the oldest records, in order,
-- and leaves the others, distinct as before.
pub drain-IsValid :
    (g : Registry) (n : ℕ)
    → IsValid g
    → let (out, g') = drain g n in
      (out ≡ take n g.records) × (g'.records ≡ drop n g.records) × IsValid g'
unfolding drain
drain-IsValid g n v = elim (Bool-cases (ltb (length g.records) n)) [
  | inl all ↦
      let (a, b) = take-past n g.records (ground arith) in
      let (a', b') = take-past (length g.records) g.records (omega arith) in
      rw (all, drain)
        (
          a' ∙ sym a,
          b' ∙ sym b,
          record {
            distinct = Distinct-drop (length g.records) g.records v.distinct;
            within = rw b' (omega arith);
          },
        )
  | inr some_left ↦
      rw (some_left, drain)
        (
          refl,
          refl,
          record {
            distinct = Distinct-drop n g.records v.distinct;
            within = omega (arith, v.within, length-drop n g.records);
          },
        )
]
