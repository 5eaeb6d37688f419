-- ===== src/Lap/OneLap.antt =====
-- `one_lap_for` ends, and returns the smallest power of two above the capacity.
use nure_queue.Common.{
  ℕ, zero, suc, ◌+◌, ◌-◌, ◌*◌, ◌%◌, ◌^◌, ◌≤◌, ◌<◌, ◌≡◌, refl, ap, ◌∙◌, ◌⊎◌, inl, inr, some, lt→ltb,
  le→not-ltb, dec_lt, arith,
}
use nure_queue.Common.Bits.{two-pow-pos}
use nure_queue.Lap.{one_lap_loop, one_lap_for}
use native.Mathlib.Nat.{pow-le-pow_right, pow-succ', mod-eq_of_lt}

-- The power of two `2 ^ k` is the first that reaches `need`, counted from `2 ^ 1`.
pub record IsFirst (need k : ℕ) : Type 0 where
  pub pos : 1 ≤ k
  pub reaches : need ≤ 2 ^ k
  pub first : (k ≡ 1) ⊎ (2 ^ (k - 1) < need)

pow-lt : (i j : ℕ) → 2 ^ i < 2 ^ j → i < j
pow-lt i j h = elim (dec_lt i j) [
  | yes lt ↦ lt
  | no ge ↦
      absurd (omega (arith, pow-le-pow_right {n = 2} (omega arith) {i = j} {j = i} (omega arith)))
]

pow-lt-double : (j w : ℕ) → suc j < w → 2 ^ suc j < 2 ^ w
pow-lt-double j w h = omega (
  arith,
  pow-succ' 2 (suc j),
  two-pow-pos (suc j),
  pow-le-pow_right {n = 2} (omega arith) {i = suc (suc j)} {j = w} h,
)

first_step : (need j : ℕ) → (j ≡ 0) ⊎ (2 ^ j < need) → (suc j ≡ 1) ⊎ (2 ^ (suc j - 1) < need)
first_step need j (inl e) = inl (omega arith)
first_step need j (inr h) = let e : suc j - 1 ≡ j = omega arith in inr (rw e h)

out_of_rounds :
    (w need j : ℕ) → 2 ≤ w → need ≤ 2 ^ (w - 1) → w ≤ suc j → ¬ ((j ≡ 0) ⊎ (2 ^ j < need))
out_of_rounds w need j two small enough (inl e) = omega arith
out_of_rounds w need j two small enough (inr h) =
    omega (arith, pow-le-pow_right {n = 2} (omega arith) {i = w - 1} {j = j} (omega arith))

-- From `lap = 2 ^ suc j`, with rounds enough to reach the width, the loop ends.
one_lap_loop_lem :
    (w fuel need j : ℕ)
    → 2 ≤ w
    → need ≤ 2 ^ (w - 1)
    → w ≤ suc j + fuel
    → (j ≡ 0) ⊎ (2 ^ j < need)
    → (k : ℕ) × (one_lap_loop w fuel need (2 ^ suc j) ≡ some (2 ^ k)) × IsFirst need k
unfolding one_lap_loop
one_lap_loop_lem w zero need j two small enough prev =
    absurd (out_of_rounds w need j two small (omega arith) prev)
one_lap_loop_lem w (suc fuel) need j two small enough prev = elim (dec_lt (2 ^ suc j) need) [
  | yes more ↦
      let deeper : suc j < w - 1 = pow-lt (suc j) (w - 1) (omega arith) in
      let doubled : 2 ^ suc j * 2 % 2 ^ w ≡ 2 ^ suc (suc j) =
        ap (λ n. n % 2 ^ w) (omega (arith, pow-succ' 2 (suc j)))
        ∙ mod-eq_of_lt (pow-lt-double (suc j) w (omega arith)) in
      rw (lt→ltb (2 ^ suc j) need more, doubled)
        (one_lap_loop_lem w fuel need (suc j) two small (omega arith) (inr more))
  | no done ↦ (
    suc j,
    rw (le→not-ltb (2 ^ suc j) need (omega arith)),
    record { pos = omega arith; reaches = omega arith; first = first_step need j prev },
  )
]

least : (cap k : ℕ) → 1 ≤ cap → IsFirst (cap + 1) k → (j : ℕ) → cap < 2 ^ j → k ≤ j
least cap k pos f zero above = absurd (omega arith)
least cap k pos f (suc j) above = elim f.first [
  | inl e ↦ omega arith
  | inr h ↦ omega (arith, pow-lt (k - 1) (suc j) (omega arith))
]

half-lt : (w : ℕ) → 2 ≤ w → 2 ^ (w - 1) < 2 ^ w
half-lt w two = pow-double (w - 1) w (omega arith)
  where
    pow-double : (i j : ℕ) → suc i ≡ j → 2 ^ i < 2 ^ j
    pow-double i j e = rw (← e) (omega (arith, pow-succ' 2 i, two-pow-pos i))

-- For a capacity of at least 1 whose successor fits all but one bit of the word, the loop of
-- `one_lap_for` ends with a power of two of fewer bits than the word; it is above the capacity, and
-- no smaller power of two is.
pub one_lap_for_lem :
    (w cap : ℕ)
    → 2 ≤ w
    → 1 ≤ cap
    → cap < 2 ^ (w - 1)
    → (k : ℕ) × (one_lap_for w cap ≡ some (2 ^ k))
      × (1 ≤ k)
      × (cap < 2 ^ k)
      × ((j : ℕ) → cap < 2 ^ j → k ≤ j)
unfolding one_lap_for
one_lap_for_lem w cap two pos small =
    let need : (cap + 1) % 2 ^ w ≡ cap + 1 = mod-eq_of_lt (omega (arith, half-lt w two)) in
    let (k, runs, f) =
      one_lap_loop_lem w w (cap + 1) 0 two (omega arith) (omega arith) (inl refl) in
    (
      k,
      ap (λ n. one_lap_loop w w n 2) need ∙ runs,
      f.pos,
      omega (arith, f.reaches),
      least cap k pos f,
    )
