-- ===== src/Backoff/Schedule.antt =====
-- How the pauses of `Backoff` grow, and where they stop.
use nure_queue.Common.{
  ℕ, zero, suc, ◌%◌, ◌^◌, ◌≤◌, min, ◌≡◌, ap, ◌∙◌, Bool, ◌&&◌, List, [], ◌∷◌, ltb, if◌then◌else◌,
  arith,
}
use nure_queue.Target.{Build}
use nure_queue.Backoff.{Backoff, Pause, yielded, hints, fresh, spin, snooze}
use native.Mathlib.Nat.{mod-eq_of_lt, pow-le-pow_right}

-- The counter after `n` calls of one of the two.
pub after : (Backoff → Backoff × Pause) → ℕ → Backoff
after call zero = fresh
after call (suc n) = (call (after call n)).0

-- A shift by at most 8 keeps its bit in a `u32`.
shift-lt : (n top : ℕ) → top ≤ 8 → 2 ^ min n top % 2 ^ 32 ≡ 2 ^ min n top
shift-lt n top h =
    mod-eq_of_lt
      (omega (arith, pow-le-pow_right {n = 2} (omega arith) {i = min n top} {j = 8} (omega arith)))

-- The hints depend on the exponent alone.
hints_eq : (s n top : ℕ) → top ≤ 8 → min s top ≡ min n top → 2 ^ min s top % 2 ^ 32 ≡ 2 ^ min n top
hints_eq s n top h e = shift-lt s top h ∙ ap (λ m. 2 ^ m) e

spins-spin : (b : Build) (n : ℕ) → (after (spin b) n).spins ≡ (if b.std then min n 7 else min n 8)
unfolding after spin
spins-spin b zero = ground arith
spins-spin b (suc n) = ground (arith, spins-spin b n)

spins-snooze :
    (b : Build) (n : ℕ) → (after (snooze b) n).spins ≡ (if b.std then min n 9 else min n 10)
unfolding after snooze
spins-snooze b zero = ground arith
spins-snooze b (suc n) = ground (arith, spins-snooze b n)

-- The call of `spin` after n calls of `spin` on a fresh `Backoff` gives 2^n hints up to n = 6. From
-- n = 7 on it yields the thread with the feature `std`, and gives 64 hints without it.
pub spin_schedule :
    (b : Build) (n : ℕ)
    → (spin b (after (spin b) n)).1 ≡ (if b.std && ltb 6 n then yielded else hints (2 ^ min n 6))
unfolding spin
spin_schedule b n = ground (arith, spins-spin b n, hints_eq (after (spin b) n).spins n 6)

-- The call of `snooze` after n calls of `snooze` on a fresh `Backoff` gives 2^n hints up to n = 8.
-- From n = 9 on it yields the thread with the feature `std`, and gives 256 hints without it.
pub snooze_schedule :
    (b : Build) (n : ℕ)
    → (snooze b (after (snooze b) n)).1
      ≡ (if b.std && ltb 8 n then yielded else hints (2 ^ min n 8))
unfolding snooze
snooze_schedule b n = ground (arith, spins-snooze b n, hints_eq (after (snooze b) n).spins n 8)

-- `n` calls, `true` for `spin` and `false` for `snooze`, in any order.
pub mixed : Build → List Bool → Backoff
mixed b [] = fresh
mixed b (call ∷ calls) = (if call then spin b (mixed b calls) else snooze b (mixed b calls)).0

-- Whatever calls went before, the counter is at most 10, so that neither the `u32` sum nor the shift
-- overflows.
pub mixed_bounds : (b : Build) (calls : List Bool) → (mixed b calls).spins ≤ 10
unfolding mixed spin snooze
mixed_bounds b [] = omega arith
mixed_bounds b (call ∷ calls) = ground (arith, mixed_bounds b calls)
