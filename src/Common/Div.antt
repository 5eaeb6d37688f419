-- ===== src/Common/Div.antt =====
-- Quotients and remainders of native numbers by a variable.
use Prim.Native.Nat.{ℕ, ◌+◌, ◌-◌, ◌*◌, ◌/◌, ◌%◌, ◌≤◌, ◌<◌}
use mathlib.Core.Path.{◌≡◌, sym, ◌∙◌, ap}
use mathlib.Core.Logic.{◌⊎◌, inl, inr}
use native.Mathlib.Decide.{dec_lt}
use native.Mathlib.Omega.{arith}
use native.Mathlib.Nat.{
  mod-eq_of_lt, mul-add-mod_self_right, mul-add-div_right, div-eq_of_lt, add-zero, div-add-mod',
  mod-add-mod, mod-lt, mod_self, add-mod_right, mod-eq-sub-mod,
}
use native.Mathlib.Nat.{div-add-mod', mod-add-mod, mod-lt, mod_self, add-mod_right, mod-eq-sub-mod}

-- `q * d + r` with `r < d` has quotient `q` and remainder `r`.
pub mod_unique : (d q r : ℕ) → r < d → (q * d + r) % d ≡ r
mod_unique d q r h = mul-add-mod_self_right q d r ∙ mod-eq_of_lt h

pub div_unique : (d q r : ℕ) → r < d → (q * d + r) / d ≡ q
div_unique d q r h =
    mul-add-div_right (omega arith) q r ∙ ap (λ t. q + t) (div-eq_of_lt h) ∙ add-zero q

-- Equal digits: two numbers in the base `d` are equal only if their quotients and remainders are.
pub digits_injective : (d q r s t : ℕ) → r < d → t < d → q * d + r ≡ s * d + t → (q ≡ s) × (r ≡ t)
digits_injective d q r s t hr ht e = (
  sym (div_unique d q r hr) ∙ ap (λ n. n / d) e ∙ div_unique d s t ht,
  sym (mod_unique d q r hr) ∙ ap (λ n. n % d) e ∙ mod_unique d s t ht,
)

-- Numbers less than `m` apart that agree modulo `m` are equal.
pub mod_injective : (m a b : ℕ) → a ≤ b → b < a + m → a % m ≡ b % m → a ≡ b
mod_injective m a b le lt e = grind (arith, div-add-mod' a m, div-add-mod' b m)

-- A number with a quotient below `m` is below `m * d`.
pub digits-lt : (m d q r : ℕ) → q < m → r < d → q * d + r < m * d
digits-lt m d q r hq hr = grind arith

-- The successor modulo `m`.
pub suc-mod_cases :
    (m q : ℕ)
    → 0 < m
    → ((q + 1) % m ≡ q % m + 1) × (q % m + 1 < m) ⊎ ((q + 1) % m ≡ 0) × (q % m + 1 ≡ m)
suc-mod_cases m q pos = elim (dec_lt (q % m + 1) m) [
  | yes lt ↦ inl (omega (arith, mod-add-mod q m 1, mod-eq_of_lt lt), lt)
  | no ge ↦
      let last : q % m + 1 ≡ m = omega (arith, mod-lt q pos) in
      inr (sym (mod-add-mod q m 1) ∙ ap (λ n. n % m) last ∙ mod_self m, last)
]

-- A number below `m * d` in the base `d`, one lap on: the quotient goes round at `m`.
pub next_lap : (m d q r : ℕ) → 0 < m → r < d → ((q % m * d + r) + d) % (m * d) ≡ (q + 1) % m * d + r
next_lap m d q r pos h = elim (suc-mod_cases m q pos) [
  | inl c ↦
      let e : q % m * d + r + d ≡ (q % m + 1) * d + r = omega arith in
      let fits : (q % m + 1) * d + r < m * d = digits-lt m d (q % m + 1) r c.1 h in
      rw c.0 (ap (λ n. n % (m * d)) e ∙ mod-eq_of_lt fits)
  | inr c ↦
      let e : q % m * d + r + d ≡ 1 * (m * d) + r = omega (arith, ap (λ n. n * d) c.1) in
      let fits : r < m * d = omega (arith, digits-lt m d 0 r pos h) in
      rw c.0 (ap (λ n. n % (m * d)) e ∙ mod_unique (m * d) 1 r fits ∙ omega arith)
]

-- Taking `l` off again modulo `m`.
pub sub_of_add : (m l x y : ℕ) → x < m → l ≤ m → (x + l) % m ≡ y → (y + m - l) % m ≡ x
sub_of_add m l x y hx hl e = elim (dec_lt (x + l) m) [
  | yes lt ↦
      let back : y + m - l ≡ x + m = omega (arith, mod-eq_of_lt lt) in
      ap (λ n. n % m) back ∙ add-mod_right x m ∙ mod-eq_of_lt hx
  | no ge ↦
      let less : (x + l) % m ≡ x + l - m =
        mod-eq-sub-mod {n = x + l} {m = m} (omega arith)
        ∙ mod-eq_of_lt {n = x + l - m} {m = m} (omega arith) in
      let back : y + m - l ≡ x = omega arith in ap (λ n. n % m) back ∙ mod-eq_of_lt hx
]

pub mul_mono : (d a c : ℕ) → a ≤ c → a * d ≤ c * d
mul_mono d a c h = grind arith

lt_of_mul-lt : (d a c : ℕ) → a * d < c * d → a < c
lt_of_mul-lt d a c h = elim (dec_lt a c) [
  | yes lt ↦ lt
  | no ge ↦ absurd (omega (arith, mul_mono d c a (omega arith)))
]

-- Numbers with one remainder modulo `d`, less than `k * d` apart, have quotients less than `k` apart.
pub div-lt-add :
    (d k m n : ℕ)
    → 0 < d
    → m ≤ n
    → n < m + d * k
    → m % d ≡ n % d
    → (m / d ≤ n / d) × (n / d < m / d + k)
div-lt-add d k m n pos le lt e = (
  grind (arith, div-add-mod' m d, div-add-mod' n d),
  lt_of_mul-lt d (n / d) (m / d + k) (omega (arith, div-add-mod' m d, div-add-mod' n d)),
)

-- The same with the order of the two left open.
pub mod_near : (m a b : ℕ) → a < b + m → b < a + m → a % m ≡ b % m → a ≡ b
mod_near m a b h1 h2 e = elim (dec_lt a b) [
  | yes lt ↦ mod_injective m a b (omega arith) h2 e
  | no ge ↦ sym (mod_injective m b a (omega arith) h1 (sym e))
]
