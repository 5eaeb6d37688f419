-- ===== src/Common/Bits.antt =====
-- Masks: what `bit_and` with a run of ones computes, at every width.
use Prim.Native.Nat.{
  ℕ, zero, suc, ◌+◌, ◌-◌, ◌*◌, ◌/◌, ◌%◌, ◌^◌, ◌≤◌, ◌<◌, min, bit_and, digits, bit_and-bitwise,
}
use mathlib.Core.Path.{◌≡◌, refl, sym, ap, ◌∙◌}
use native.Mathlib.Omega.{arith}
use native.Mathlib.Nat.{
  pow-suc, pow-succ', pow-le-pow_right, one-le-pow, zero-mod, mod-eq_of_lt, add-suc, add-zero,
  mul-one,
}

-- `bit_and` on a given number of digits of its first argument.
abbrev and_digits : ℕ → ℕ → ℕ → ℕ
and_digits n a b = digits (λ b. zero) min n a b

pub two-pow-pos : (k : ℕ) → 0 < 2 ^ k
two-pow-pos k = one-le-pow k 2 (omega arith)

-- The lowest digit of a remainder by twice `p`.
mod-double : (a p : ℕ) → 0 < p → a % (2 * p) ≡ (a / 2 % p) * 2 + a % 2
mod-double a p h = grind arith

mod-pow-suc : (a k : ℕ) → a % 2 ^ suc k ≡ (a / 2 % 2 ^ k) * 2 + a % 2
mod-pow-suc a k = ap (λ d. a % d) (pow-succ' 2 k) ∙ mod-double a (2 ^ k) (two-pow-pos k)

pow-add-suc : (w k : ℕ) → 2 ^ (w + suc k) ≡ 2 * 2 ^ (w + k)
pow-add-suc w k = ap (λ n. 2 ^ n) (add-suc w k) ∙ pow-succ' 2 (w + k)

pub pow-add : (i j : ℕ) → 2 ^ (i + j) ≡ 2 ^ i * 2 ^ j
pow-add i zero = ap (λ n. 2 ^ n) (add-zero i) ∙ sym (mul-one (2 ^ i))
pow-add i (suc j) = omega (arith, pow-add-suc i j, pow-add i j, ap (λ n. 2 ^ i * n) (pow-succ' 2 j))

pow-le-add : (w k : ℕ) → 2 ^ k ≤ 2 ^ (w + k)
pow-le-add w k = pow-le-pow_right (omega arith) (omega arith)

and_digits_zero : (n a : ℕ) → and_digits n a 0 ≡ 0
and_digits_zero zero a = refl
and_digits_zero (suc n) zero = refl
and_digits_zero (suc n) (suc a) = omega (arith, and_digits_zero n (suc a / 2))

half-mask : (k : ℕ) → ((2 ^ suc k - 1) / 2 ≡ 2 ^ k - 1) × ((2 ^ suc k - 1) % 2 ≡ 1)
half-mask k = omega (arith, pow-suc 2 k, two-pow-pos k)

and_digits_mask : (n a k : ℕ) → a ≤ n → and_digits n a (2 ^ k - 1) ≡ a % 2 ^ k
and_digits_mask zero zero k h = sym (zero-mod (2 ^ k))
and_digits_mask zero (suc a) k h = absurd (omega arith)
and_digits_mask (suc n) zero k h = sym (zero-mod (2 ^ k))
and_digits_mask (suc n) (suc a) zero h = omega (arith, and_digits_zero n (suc a / 2))
and_digits_mask (suc n) (suc a) (suc k) h =
    rw ((half-mask k).0, (half-mask k).1)
      (omega (arith, and_digits_mask n (suc a / 2) k (omega arith), mod-pow-suc (suc a) k))

-- `a & (2^k - 1)` is the remainder modulo `2^k`.
pub bit_and_mask : (a k : ℕ) → bit_and a (2 ^ k - 1) ≡ a % 2 ^ k
bit_and_mask a k = bit_and-bitwise a (2 ^ k - 1) ∙ and_digits_mask a a k (omega arith)

-- Halving the complement of a mask of `suc k` ones among `w + suc k` bits.
half-high :
    (w k : ℕ)
    → ((2 ^ (w + suc k) - 2 ^ suc k) / 2 ≡ 2 ^ (w + k) - 2 ^ k)
      × ((2 ^ (w + suc k) - 2 ^ suc k) % 2 ≡ 0)
half-high w k = omega (arith, pow-add-suc w k, pow-succ' 2 k, pow-le-add w k)

and_digits_high :
    (n a w k : ℕ) → a ≤ n → a < 2 ^ (w + k) → and_digits n a (2 ^ (w + k) - 2 ^ k) + a % 2 ^ k ≡ a
and_digits_high zero zero w k h lt = omega arith
and_digits_high zero (suc a) w k h lt = absurd (omega arith)
and_digits_high (suc n) zero w k h lt = omega arith
and_digits_high (suc n) (suc a) w zero h lt =
    omega (arith, and_digits_mask (suc n) (suc a) (w + 0) h, mod-eq_of_lt lt)
and_digits_high (suc n) (suc a) w (suc k) h lt =
    rw ((half-high w k).0, (half-high w k).1)
      (omega (
        arith,
        and_digits_high n (suc a / 2) w k (omega arith) (omega (arith, pow-add-suc w k)),
        mod-pow-suc (suc a) k,
      ))

-- `a & !(2^k - 1)` among `w` bits is `a` with its `k` lowest digits cleared.
pub bit_and_high :
    (a w k : ℕ) → k ≤ w → a < 2 ^ w → bit_and a (2 ^ w - 1 - (2 ^ k - 1)) + a % 2 ^ k ≡ a
bit_and_high a w k le lt =
    rw (complement, bit_and-bitwise) (and_digits_high a a (w - k) k (omega arith) below)
  where
    total : w - k + k ≡ w
    total = omega arith

    below : a < 2 ^ (w - k + k)
    below = rw total lt

    complement : 2 ^ w - 1 - (2 ^ k - 1) ≡ 2 ^ (w - k + k) - 2 ^ k
    complement = rw total (omega (arith, two-pow-pos k))
