-- ===== src/Base/Bits.antt =====
-- Laws of the bitwise or, from the recursion on binary digits that the native operation stands for.
use Prim.Native.Nat.{
  ℕ, zero, suc, ◌+◌, ◌*◌, ◌/◌, ◌%◌, ◌^◌, ◌≤◌, ◌<◌, max, bit_or, digits, bit_or-bitwise,
}
use mathlib.Core.Path.{◌≡◌, refl}
use native.Mathlib.Omega.{arith}
use native.Mathlib.Nat.{
  pow-zero, pow-succ', div-div-eq-div-mul, div-one, div-add-mod, mod-one, mod-eq_of_lt,
  div-eq_of_lt,
}

abbrev or_digits : ℕ → ℕ → ℕ → ℕ
or_digits n a b = digits (λ b. b) max n a b

or_digits_fuel : (n m a b : ℕ) → a ≤ n → a ≤ m → or_digits n a b ≡ or_digits m a b
or_digits_fuel zero zero a b p q = refl
or_digits_fuel zero (suc m) zero b p q = refl
or_digits_fuel zero (suc m) (suc a) b p q = absurd (omega arith)
or_digits_fuel (suc n) zero zero b p q = refl
or_digits_fuel (suc n) zero (suc a) b p q = absurd (omega arith)
or_digits_fuel (suc n) (suc m) zero b p q = refl
or_digits_fuel (suc n) (suc m) (suc a) b p q =
    omega (arith, or_digits_fuel n m (suc a / 2) (b / 2) (omega arith) (omega arith))

pub zero-bit_or : (b : ℕ) → bit_or 0 b ≡ b
zero-bit_or b = bit_or-bitwise 0 b

pub bit_or_step : (a b : ℕ) → bit_or a b ≡ bit_or (a / 2) (b / 2) * 2 + max (a % 2) (b % 2)
bit_or_step zero b = omega (arith, zero-bit_or b, zero-bit_or (b / 2))
bit_or_step (suc a) b = omega (
  arith,
  bit_or-bitwise (suc a) b,
  bit_or-bitwise (suc a / 2) (b / 2),
  or_digits_fuel a (suc a / 2) (suc a / 2) (b / 2) (omega arith) (omega arith),
)

bit_or-zero_fuel : (n a : ℕ) → a ≤ n → bit_or a 0 ≡ a
bit_or-zero_fuel n zero h = refl
bit_or-zero_fuel zero (suc a) h = absurd (omega arith)
bit_or-zero_fuel (suc n) (suc a) h =
    omega (arith, bit_or_step (suc a) 0, bit_or-zero_fuel n (suc a / 2) (omega arith))

pub bit_or-zero : (a : ℕ) → bit_or a 0 ≡ a
bit_or-zero a = bit_or-zero_fuel a a (omega arith)

half : (a b : ℕ) → bit_or a b / 2 ≡ bit_or (a / 2) (b / 2)
half a b = omega (arith, bit_or_step a b)

-- The upper part of the result is that of the upper parts: shift right once, then `k` times more.
pub bit_or-shift : (k a b : ℕ) → bit_or a b / 2 ^ k ≡ bit_or (a / 2 ^ k) (b / 2 ^ k)
bit_or-shift zero a b = simp (pow-zero, div-one)
bit_or-shift (suc k) a b =
    simp (pow-succ', ← div-div-eq-div-mul, half) (bit_or-shift k (a / 2) (b / 2))

mod_double : (x p : ℕ) → 0 < p → x % (2 * p) ≡ x / 2 % p * 2 + x % 2
mod_double x p h =
    grind (
      arith,
      div-add-mod x (2 * p),
      div-add-mod (x / 2) p,
      div-add-mod x 2,
      div-div-eq-div-mul x 2 p,
    )

mod_double-half : (x p : ℕ) → 0 < p → x % (2 * p) / 2 ≡ x / 2 % p
mod_double-half x p h = omega (arith, mod_double x p h)

pow-pos : (k : ℕ) → 0 < 2 ^ k
pow-pos zero = omega arith
pow-pos (suc k) = omega (arith, pow-pos k, pow-succ' 2 k)

-- The lower `k` digits of the result are the or of the lower digits.
pub bit_or-low : (k a b : ℕ) → bit_or a b % 2 ^ k ≡ bit_or (a % 2 ^ k) (b % 2 ^ k)
bit_or-low zero a b = rw (mod-one, mod-one, mod-one) (bit_or-zero 0)
bit_or-low (suc k) a b =
    rw
      (
        pow-succ',
        bit_or_step (a % (2 * 2 ^ k)) (b % (2 * 2 ^ k)),
        mod_double-half a (2 ^ k) pos,
        mod_double-half b (2 ^ k) pos,
        ← bit_or-low k (a / 2) (b / 2),
        ← half,
      )
      (omega (
        arith,
        bit_or_step a b,
        mod_double (bit_or a b) (2 ^ k) pos,
        mod_double a (2 ^ k) pos,
        mod_double b (2 ^ k) pos,
      ))
  where
    pos : 0 < 2 ^ k
    pos = pow-pos k

-- The or of two numbers, from their upper parts and their lower `k` digits.
pub bit_or-split :
    (k a b : ℕ)
    → bit_or a b ≡ bit_or (a / 2 ^ k) (b / 2 ^ k) * 2 ^ k + bit_or (a % 2 ^ k) (b % 2 ^ k)
bit_or-split k a b =
    rw (← bit_or-shift k a b, ← bit_or-low k a b) (omega (arith, div-add-mod (bit_or a b) (2 ^ k)))

-- A number below `2 ^ k` fills the `k` free digits of a multiple.
pub bit_or-add_of_low : (k a b : ℕ) → a % 2 ^ k ≡ 0 → b < 2 ^ k → bit_or a b ≡ a + b
bit_or-add_of_low k a b free low =
    rw (bit_or-split k a b, free, mod-eq_of_lt low, div-eq_of_lt low, zero-bit_or, bit_or-zero)
      (omega (arith, div-add-mod a (2 ^ k)))
