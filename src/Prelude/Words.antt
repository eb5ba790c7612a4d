-- ===== src/Prelude/Words.antt =====
-- 32-bit words: `uint32_t` and, on the ESP8266, `size_t`. A word is a number below `2 ^ 32`.
use Prim.Native.Nat.{
  ℕ, zero, suc, ◌+◌, ◌-◌, ◌*◌, ◌/◌, ◌%◌, ◌≤◌, min, max, bit_and, bit_or, digits, bit_and-bitwise,
  bit_or-bitwise,
}
use mathlib.Core.Path.{◌≡◌, refl}
use native.Mathlib.Omega.{arith}

abbrev pub u32_mod : ℕ
u32_mod = 0x100000000

abbrev pub u16_mod : ℕ
u16_mod = 0x10000

-- `a + b` and `a - b` wrap round.
abbrev pub add32 : ℕ → ℕ → ℕ
add32 a b = (a + b) % u32_mod

abbrev pub sub32 : ℕ → ℕ → ℕ
sub32 a b = (a + u32_mod - b) % u32_mod

-- `++x` on a 32-bit counter.
abbrev pub inc32 : ℕ → ℕ
inc32 a = (a + 1) % u32_mod

-- The masks of the program. The native `bit_and` has no law at a variable but the recursion on
-- the binary digits that it stands for.
abbrev and_rec : ℕ → ℕ → ℕ → ℕ
and_rec fuel a b = digits (λ _. zero) min fuel a b

abbrev or_rec : ℕ → ℕ → ℕ → ℕ
or_rec fuel a b = digits (λ c. c) max fuel a b

and_rec-fuel : (n m a b : ℕ) → a ≤ n → a ≤ m → and_rec n a b ≡ and_rec m a b
and_rec-fuel zero zero a b p q = refl
and_rec-fuel zero (suc m) zero b p q = refl
and_rec-fuel zero (suc m) (suc a) b p q = absurd (omega arith)
and_rec-fuel (suc n) zero zero b p q = refl
and_rec-fuel (suc n) zero (suc a) b p q = absurd (omega arith)
and_rec-fuel (suc n) (suc m) zero b p q = refl
and_rec-fuel (suc n) (suc m) (suc a) b p q =
    omega (arith, and_rec-fuel n m (suc a / 2) (b / 2) (omega arith) (omega arith))

-- The lowest digit of `a & b`, and the rest.
bit_and-digit : (a b : ℕ) → bit_and a b ≡ bit_and (a / 2) (b / 2) * 2 + min (a % 2) (b % 2)
bit_and-digit zero b = omega (arith, bit_and-bitwise 0 b, bit_and-bitwise 0 (b / 2))
bit_and-digit (suc a) b = omega (
  arith,
  bit_and-bitwise (suc a) b,
  bit_and-bitwise (suc a / 2) (b / 2),
  and_rec-fuel a (suc a / 2) (suc a / 2) (b / 2) (omega arith) (omega arith),
)

bit_and-zero_below : (n a : ℕ) → a ≤ n → bit_and a 0 ≡ 0
bit_and-zero_below n zero h = refl
bit_and-zero_below zero (suc a) h = absurd (omega arith)
bit_and-zero_below (suc n) (suc a) h =
    omega (arith, bit_and-digit (suc a) 0, bit_and-zero_below n (suc a / 2) (omega arith))

pub bit_and-zero : (a : ℕ) → bit_and a 0 ≡ 0
bit_and-zero a = bit_and-zero_below a a (omega arith)

pub bit_and_1 : (a : ℕ) → bit_and a 1 ≡ a % 2
bit_and_1 a = omega (arith, bit_and-digit a 1, bit_and-zero (a / 2))

bit_and_3 : (a : ℕ) → bit_and a 3 ≡ a % 4
bit_and_3 a = omega (arith, bit_and-digit a 3, bit_and_1 (a / 2))

pub bit_and_7 : (a : ℕ) → bit_and a 7 ≡ a % 8
bit_and_7 a = omega (arith, bit_and-digit a 7, bit_and_3 (a / 2))

pub bit_and_15 : (a : ℕ) → bit_and a 15 ≡ a % 16
bit_and_15 a = omega (arith, bit_and-digit a 15, bit_and_7 (a / 2))

-- Bit 0 is set after it has been or-ed in.
pub bit_or_1-odd : (a : ℕ) → bit_and (bit_or a 1) 1 ≡ 1
bit_or_1-odd zero = refl
bit_or_1-odd (suc a) = omega (arith, bit_and_1 (bit_or (suc a) 1), bit_or-bitwise (suc a) 1)
