-- ===== src/Prelude/Rings.antt =====
-- Rings over an array: what `n` slots hold from index `h` on, going round at `cap`.
use Prim.Native.Nat.{ℕ, zero, suc, ◌+◌, ◌-◌, ◌%◌, ◌≤◌, ◌<◌}
use mathlib.Core.Path.{◌≡◌, refl, sym, ap, ap₂, ◌∙◌}
use mathlib.Core.Logic.{◌≢◌}
use mathlib.Core.List.{List, [], ◌∷◌, ◌++◌}
use native.Mathlib.Nat.{mod-lt, mod-eq_of_lt, mod-eq-sub-mod, mod-add-mod}
use native.Mathlib.Decide.{dec_lt}
use native.Mathlib.Omega.{arith}
use esp8266_event_driven_fra.Prelude.Lists.{
  length, get_or, set, tabulate, get_or-set_self, get_or-set_ne,
}

-- Fewer than `cap` steps from one residue do not meet.
add-mod-small_ne : (r a b cap : ℕ) → r < cap → a < b → b < cap → (r + a) % cap ≢ (r + b) % cap
add-mod-small_ne r a b cap hr hab hb = elim (dec_lt (r + b) cap) [
  | yes p ↦ omega (
    arith,
    mod-eq_of_lt {n = r + a} {m = cap} (omega arith),
    mod-eq_of_lt {n = r + b} {m = cap} p,
  )
  | no p ↦ elim (dec_lt (r + a) cap) [
    | yes q ↦ omega (
      arith,
      mod-eq_of_lt {n = r + a} {m = cap} q,
      mod-eq-sub-mod {n = r + b} {m = cap} (omega arith),
      mod-eq_of_lt {n = r + b - cap} {m = cap} (omega arith),
    )
    | no q ↦ omega (
      arith,
      mod-eq-sub-mod {n = r + a} {m = cap} (omega arith),
      mod-eq_of_lt {n = r + a - cap} {m = cap} (omega arith),
      mod-eq-sub-mod {n = r + b} {m = cap} (omega arith),
      mod-eq_of_lt {n = r + b - cap} {m = cap} (omega arith),
    )
  ]
]

pub add-mod-ne : (h a b cap : ℕ) → a < b → b < cap → (h + a) % cap ≢ (h + b) % cap
add-mod-ne h a b cap hab hb e =
    add-mod-small_ne (h % cap) a b cap (mod-lt h (omega arith)) hab hb
      (mod-add-mod h cap a ∙ e ∙ sym (mod-add-mod h cap b))

module _ {ℓ} {A : Type ℓ} where
  pub tabulate-cong :
      (f g : ℕ → A) (n : ℕ) → ((k : ℕ) → k < n → f k ≡ g k) → tabulate f n ≡ tabulate g n
  tabulate-cong f g zero h = refl
  tabulate-cong f g (suc n) h =
      ap₂ ◌∷◌ (h 0 (omega arith))
        (tabulate-cong (λ k. f (suc k)) (λ k. g (suc k)) n (λ k p. h (suc k) (omega arith)))

  pub tabulate-suc : (f : ℕ → A) (n : ℕ) → tabulate f (suc n) ≡ tabulate f n ++ f n ∷ []
  tabulate-suc f zero = refl
  tabulate-suc f (suc n) = ap (λ r. f 0 ∷ r) (tabulate-suc (λ k. f (suc k)) n)

  pub set-tabulate :
      (f g : ℕ → A) (n i : ℕ) (x : A)
      → i < n
      → g i ≡ x
      → ((k : ℕ) → k < n → k ≢ i → g k ≡ f k)
      → tabulate g n ≡ set (tabulate f n) i x
  set-tabulate f g zero i x hi e h = absurd (omega arith)
  set-tabulate f g (suc n) zero x hi e h = ap₂ ◌∷◌ e (
      tabulate-cong (λ k. g (suc k)) (λ k. f (suc k)) n
        (λ k p. h (suc k) (omega arith) (λ q. absurd (omega arith))))
  set-tabulate f g (suc n) (suc i) x hi e h =
      ap₂ ◌∷◌ (h 0 (omega arith) (λ q. absurd (omega arith))) (
        set-tabulate (λ k. f (suc k)) (λ k. g (suc k)) n i x (omega arith) e
          (λ k p ne. h (suc k) (omega arith) (λ q. ne (omega arith))))

  pub get_or-tabulate : (f : ℕ → A) (n i : ℕ) (d : A) → i < n → get_or (tabulate f n) i d ≡ f i
  get_or-tabulate f zero i d h = absurd (omega arith)
  get_or-tabulate f (suc n) zero d h = refl
  get_or-tabulate f (suc n) (suc i) d h = get_or-tabulate (λ k. f (suc k)) n i d (omega arith)

  -- The `n` items from index `h` on; `d` stands for a read outside the array.
  unfoldable pub ring : List A → ℕ → A → ℕ → ℕ → List A
  ring buf cap d h n = tabulate (λ k. get_or buf ((h + k) % cap) d) n

module _ {ℓ} {A : Type ℓ} (buf : List A) (cap : ℕ) (d : A) where
  -- Only the residue of the start matters.
  pub ring-mod : (h n : ℕ) → ring buf cap d (h % cap) n ≡ ring buf cap d h n
  unfolding ring
  ring-mod h n = tabulate-cong _ _ n (λ k _. ap (λ i. get_or buf i d) (mod-add-mod h cap k))

  -- The oldest item, and the rest.
  pub ring-pop :
      (h n : ℕ)
      → h < cap
      → ring buf cap d h (suc n) ≡ get_or buf h d ∷ ring buf cap d ((h + 1) % cap) n
  unfolding ring
  ring-pop h n hh = ap₂ ◌∷◌ first rest
    where
      first : get_or buf ((h + 0) % cap) d ≡ get_or buf h d
      first = ap (λ i. get_or buf i d) (ap (λ t. t % cap) (omega arith) ∙ mod-eq_of_lt hh)

      rest : tabulate (λ k. get_or buf ((h + suc k) % cap) d) n ≡ ring buf cap d ((h + 1) % cap) n
      rest =
          tabulate-cong _ _ n (λ k _. ap (λ t. get_or buf (t % cap) d) (omega arith))
          ∙ sym (ring-mod (h + 1) n)

  module _ (fits : cap ≤ length buf) where
    -- Writing just past the items adds one at the end.
    pub ring-push :
        (h n : ℕ) (x : A)
        → n < cap
        → ring (set buf ((h + n) % cap) x) cap d h (suc n) ≡ ring buf cap d h n ++ x ∷ []
    unfolding ring
    ring-push h n x hn =
        tabulate-suc (λ k. get_or (set buf ((h + n) % cap) x) ((h + k) % cap) d) n
        ∙ ap₂ ◌++◌ old new
      where
        in_buf : (h + n) % cap < length buf
        in_buf = let p = mod-lt (h + n) {m = cap} (omega arith) in omega arith

        new : get_or (set buf ((h + n) % cap) x) ((h + n) % cap) d ∷ [] ≡ x ∷ []
        new = ap (λ t. t ∷ []) (get_or-set_self buf ((h + n) % cap) x d in_buf)

        old : ring (set buf ((h + n) % cap) x) cap d h n ≡ ring buf cap d h n
        old = tabulate-cong _ _ n (λ k hk.
            get_or-set_ne buf ((h + n) % cap) ((h + k) % cap) x d
              (λ e. add-mod-ne h k n cap hk hn (sym e)))

    -- Writing over one of the items replaces it.
    pub ring-set :
        (h n k : ℕ) (x : A)
        → k < n
        → n ≤ cap
        → ring (set buf ((h + k) % cap) x) cap d h n ≡ set (ring buf cap d h n) k x
    unfolding ring
    ring-set h n k x hk hn =
        set-tabulate _ _ n k x hk
          (get_or-set_self buf ((h + k) % cap) x d
            (let p = mod-lt (h + k) {m = cap} (omega arith) in omega arith))
          (λ j hj ne. get_or-set_ne buf ((h + k) % cap) ((h + j) % cap) x d (apart j hj ne))
      where
        apart : (j : ℕ) → j < n → j ≢ k → (h + k) % cap ≢ (h + j) % cap
        apart j hj ne e = elim (dec_lt j k) [
          | yes p ↦ add-mod-ne h j k cap p (omega arith) (sym e)
          | no p ↦ add-mod-ne h k j cap (omega arith) (omega arith) e
        ]

    -- Clearing the oldest slot leaves the rest.
    pub ring-clear :
        (h n : ℕ) (x : A)
        → h < cap
        → n < cap
        → ring (set buf h x) cap d ((h + 1) % cap) n ≡ ring buf cap d ((h + 1) % cap) n
    unfolding ring
    ring-clear h n x hh hn =
        tabulate-cong _ _ n
          (λ k hk. get_or-set_ne buf h (((h + 1) % cap + k) % cap) x d (apart k hk))
      where
        apart : (k : ℕ) → k < n → h ≢ ((h + 1) % cap + k) % cap
        apart k hk e = add-mod-ne h 0 (suc k) cap (omega arith) (omega arith) (
            ap (λ t. t % cap) (omega arith)
            ∙ mod-eq_of_lt hh
            ∙ e
            ∙ mod-add-mod (h + 1) cap k
            ∙ ap (λ t. t % cap) (omega arith))
