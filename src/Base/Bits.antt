-- ===== src/Base/Bits.antt =====
-- Laws of `|` and `&` at variables, from their digit recursion: a field in the low bits beside one
-- in the high bits, and masks of ones.
use Prim.Native.Nat.{
  ℕ, zero, suc, ◌+◌, ◌*◌, ◌/◌, ◌%◌, ◌^◌, ◌≤◌, ◌<◌, max, bit_or, digits, bit_or-bitwise,
}
use mathlib.Core.Path.{◌≡◌, refl, ◌∙◌}
use native.Mathlib.Nat.{pow-suc}
use native.Mathlib.Omega.{arith}

abbrev or_digits : ℕ → ℕ → ℕ → ℕ
or_digits n a b = digits (λ b. b) max n a b

or_digits_fuel : (n m a b : ℕ) → a ≤ n → a ≤ m → or_digits n a b ≡ or_digits m a b
or_digits_fuel zero zero a b p q = refl
or_digits_fuel zero (suc m) zero b p q = refl
or_digits_fuel zero (suc m) (suc a) b p q = absurd (omega arith)
or_digits_fuel (suc n) zero zero b p q = refl
or_digits_fuel (suc n) zero (suc a) b p q = absurd (omega arith)
or_digits_fuel (suc n) (suc m) zero b p q = refl
or_digits_fuel (suc n) (suc m) (suc a) b p q =
    omega (arith, or_digits_fuel n m (suc a / 2) (b / 2) (omega arith) (omega arith))

pub zero-bit_or : (b : ℕ) → bit_or 0 b ≡ b
zero-bit_or b = bit_or-bitwise 0 b

pub bit_or_step : (a b : ℕ) → bit_or a b ≡ bit_or (a / 2) (b / 2) * 2 + max (a % 2) (b % 2)
bit_or_step zero b = omega (arith, zero-bit_or b, zero-bit_or (b / 2))
bit_or_step (suc a) b = omega (
  arith,
  bit_or-bitwise (suc a) b,
  bit_or-bitwise (suc a / 2) (b / 2),
  or_digits_fuel a (suc a / 2) (suc a / 2) (b / 2) (omega arith) (omega arith),
)

bit_or-zero_fuel : (n a : ℕ) → a ≤ n → bit_or a 0 ≡ a
bit_or-zero_fuel n zero h = refl
bit_or-zero_fuel zero (suc a) h = absurd (omega arith)
bit_or-zero_fuel (suc n) (suc a) h =
    omega (arith, bit_or_step (suc a) 0, bit_or-zero_fuel n (suc a / 2) (omega arith))

pub bit_or-zero : (a : ℕ) → bit_or a 0 ≡ a
bit_or-zero a = bit_or-zero_fuel a a (omega arith)

double-half : (x : ℕ) → 2 * x / 2 ≡ x
double-half x = omega arith

bit_or-double : (x l r : ℕ) → bit_or x (l / 2) ≡ r → bit_or (2 * x) l ≡ 2 * r + l % 2
bit_or-double x l r e = bit_or_step (2 * x) l ∙ rw (double-half x, e) (omega arith)

-- A field of `k` low bits beside a multiple of 2 ^ k: one is added to the other.
pub bit_or_low : (k h l : ℕ) → l < 2 ^ k → bit_or (h * 2 ^ k) l ≡ h * 2 ^ k + l
bit_or_low zero h l p = let e : l ≡ 0 = omega arith in rw (e, bit_or-zero) (omega arith)
bit_or_low (suc k) h l p =
    let e : h * 2 ^ suc k ≡ 2 * (h * 2 ^ k) = rw pow-suc (omega arith) in
    let small : l / 2 < 2 ^ k = let q : l < 2 ^ k * 2 = rw pow-suc at p in omega arith in
    rw e
      (bit_or-double (h * 2 ^ k) l (h * 2 ^ k + l / 2) (bit_or_low k h (l / 2) small) ∙ omega arith)

-- `x | 1`
pub bit_or-one : (a : ℕ) → bit_or a 1 ≡ a / 2 * 2 + 1
bit_or-one a = omega (arith, bit_or_step a 1, bit_or-zero (a / 2))
