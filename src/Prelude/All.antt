-- ===== src/Prelude/All.antt =====
-- A property of each item of an array together with its index, and reads after writes.
use Prim.Native.Nat.{ℕ, zero, suc, ◌+◌, ◌<◌}
use mathlib.Core.Path.{◌≡◌, refl, ap, subst}
use mathlib.Core.Logic.{◌≢◌}
use mathlib.Core.List.{List, [], ◌∷◌}
use mathlib.Core.Option.{some}
use native.Mathlib.Omega.{arith}
use esp8266_event_driven_fra.Prelude.Lists.{length, get_elem?, set, tabulate}

module _ {ℓ} {A : Type ℓ} where
  pub get_elem?-set_self :
      (xs : List A) (i : ℕ) (v w : A) → get_elem? xs i ≡ some w → get_elem? (set xs i v) i ≡ some v
  get_elem?-set_self [] i v w h = absurd (cc h)
  get_elem?-set_self (x ∷ xs) zero v w h = refl
  get_elem?-set_self (x ∷ xs) (suc i) v w h = get_elem?-set_self xs i v w h

  pub get_elem?-set_ne :
      (xs : List A) (i j : ℕ) (v : A) → i ≢ j → get_elem? (set xs i v) j ≡ get_elem? xs j
  get_elem?-set_ne [] i j v h = refl
  get_elem?-set_ne (x ∷ xs) zero zero v h = absurd (h refl)
  get_elem?-set_ne (x ∷ xs) zero (suc j) v h = refl
  get_elem?-set_ne (x ∷ xs) (suc i) zero v h = refl
  get_elem?-set_ne (x ∷ xs) (suc i) (suc j) v h = get_elem?-set_ne xs i j v (λ e. h (ap suc e))

  pub lt-length : (xs : List A) (i : ℕ) (w : A) → get_elem? xs i ≡ some w → i < length xs
  lt-length [] i w h = absurd (cc h)
  lt-length (x ∷ xs) zero w h = omega arith
  lt-length (x ∷ xs) (suc i) w h = omega (arith, lt-length xs i w h)

module _ {ℓ κ} {A : Type ℓ} (P : ℕ → A → Type κ) where
  -- `P` holds of each item, whose indices are counted from the given number.
  abbrev pub AllFrom : ℕ → List A → Type κ
  AllFrom i [] = Unit
  AllFrom i (x ∷ xs) = P i x × AllFrom (suc i) xs

  pub AllFrom-get :
      (i k : ℕ) (xs : List A) (x : A) → AllFrom i xs → get_elem? xs k ≡ some x → P (i + k) x
  AllFrom-get i k [] x h e = absurd (cc e)
  AllFrom-get i zero (y ∷ xs) x h e =
      let q : y ≡ x = cc in subst (λ j. P j x) (omega arith) (subst (P i) q h.0)
  AllFrom-get i (suc k) (y ∷ xs) x h e =
      subst (λ j. P j x) (omega arith) (AllFrom-get (suc i) k xs x h.1 e)

  pub AllFrom-set :
      (i k : ℕ) (xs : List A) (x : A) → AllFrom i xs → P (i + k) x → AllFrom i (set xs k x)
  AllFrom-set i k [] x h p = h
  AllFrom-set i zero (y ∷ xs) x h p = (subst (λ j. P j x) (omega arith) p, h.1)
  AllFrom-set i (suc k) (y ∷ xs) x h p =
      (h.0, AllFrom-set (suc i) k xs x h.1 (subst (λ j. P j x) (omega arith) p))

  pub AllFrom-tabulate :
      (i n : ℕ) (f : ℕ → A) → ((k : ℕ) → P (i + k) (f k)) → AllFrom i (tabulate f n)
  AllFrom-tabulate i zero f h = tt
  AllFrom-tabulate i (suc n) f h = (
    subst (λ j. P j (f 0)) (omega arith) (h 0),
    AllFrom-tabulate (suc i) n (λ k. f (suc k))
        (λ k. subst (λ j. P j (f (suc k))) (omega arith) (h (suc k))),
  )

  pub AllFrom-of_get :
      (i : ℕ) (xs : List A)
      → ((k : ℕ) (x : A) → get_elem? xs k ≡ some x → P (i + k) x)
      → AllFrom i xs
  AllFrom-of_get i [] h = tt
  AllFrom-of_get i (x ∷ xs) h = (
    subst (λ j. P j x) (omega arith) (h 0 x refl),
    AllFrom-of_get (suc i) xs (λ k y e. subst (λ j. P j y) (omega arith) (h (suc k) y e)),
  )
