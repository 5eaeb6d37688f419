-- ===== src/Lap/Ticket.antt =====
-- Tickets. The n-th push and the n-th pop of a queue take ticket n, a number without bound; the word
-- that stands for it is `position n`. The operations of `Lap` on positions, read as tickets.
use nure_queue.Common.{
  ℕ, suc, ◌+◌, ◌-◌, ◌*◌, ◌/◌, ◌%◌, ◌^◌, ◌≤◌, ◌<◌, ◌≡◌, ◌≢◌, sym, ap, ap₂, ◌∙◌, ltb, if◌then◌else◌,
  lt→ltb, le→not-ltb, dec_lt, bit_and, arith,
}
use nure_queue.Common.Bits.{bit_and_mask, bit_and_high}
use nure_queue.Common.Div.{
  mod_unique, div_unique, digits_injective, mod_injective, digits-lt, next_lap, sub_of_add,
  div-lt-add,
}
use nure_queue.Target.{Build, index_bits, wrapping_add, wrapping_sub}
use nure_queue.Lap.{index_of, lap_of, next_pos}
use nure_queue.Lap.Geometry.{Geometry}
use native.Mathlib.Nat.{mod-eq_of_lt, mod-lt, add-div_right, add-mod_right, div-add-mod'}

module _ {b : Build} {N L : ℕ} (g : Geometry b N L) where
  open g use {log, laps, power, log-le, above, cap_pos, words, laps-le, addressable}

  -- The word of ticket `n`: its lap, counted modulo the laps of a word, and its index.
  abbrev pub position : ℕ → ℕ
  position n = n / N % laps * L + n % N

  pub slot-lt : (n : ℕ) → n % N < N
  slot-lt n = mod-lt n cap_pos

  laps_pos : 0 < laps
  laps_pos = omega arith

  turn-lt : (n : ℕ) → n / N % laps < laps
  turn-lt n = mod-lt (n / N) laps_pos

  mask : (x : ℕ) → bit_and x (L - 1) ≡ x % L
  mask x = ap (λ l. bit_and x (l - 1)) power ∙ bit_and_mask x log ∙ ap (λ l. x % l) (sym power)

  -- A position has room for one more in its word: `tail + 1` and `head + 1` do not overflow.
  pub position-lt : (n : ℕ) → position n + 1 < 2 ^ index_bits b
  position-lt n = omega (
    arith,
    words,
    slot-lt n,
    digits-lt laps L (n / N % laps) (n % N + 1) (turn-lt n) (omega (arith, slot-lt n)),
  )

  pub add_one : (n : ℕ) → wrapping_add (index_bits b) (position n) 1 ≡ position n + 1
  unfolding wrapping_add
  add_one n = mod-eq_of_lt (position-lt n)

  position-mod : (n : ℕ) → position n % L ≡ n % N
  position-mod n = mod_unique L (n / N % laps) (n % N) (omega (arith, slot-lt n))

  pub index_of-position : (n : ℕ) → index_of b L (position n) ≡ n % N
  unfolding index_of
  index_of-position n =
      ap (λ x. x % 2 ^ b.pointer_width) (mask (position n) ∙ position-mod n)
      ∙ mod-eq_of_lt (omega (arith, slot-lt n))

  pub lap_of-position : (n : ℕ) → lap_of b L (position n) ≡ n / N % laps * L
  unfolding lap_of
  lap_of-position n = omega (arith, cleared, position-mod n)
    where
      cleared : bit_and (position n) (2 ^ index_bits b - 1 - (L - 1)) + position n % L ≡ position n
      cleared =
          ap (λ l. bit_and (position n) (2 ^ index_bits b - 1 - (l - 1)) + position n % l) power
          ∙ bit_and_high (position n) (index_bits b) log log-le (omega (arith, position-lt n))

  -- Ticket `n + N` has the index of ticket `n`, one lap on.
  position_lap : (n : ℕ) → position (n + N) ≡ (n / N + 1) % laps * L + n % N
  position_lap n = ap₂ (λ q r. q % laps * L + r) (add-div_right n cap_pos) (add-mod_right n N)

  pub add_lap : (n : ℕ) → wrapping_add (index_bits b) (position n) L ≡ position (n + N)
  unfolding wrapping_add
  add_lap n =
      ap (λ m. (position n + L) % m) words
      ∙ next_lap laps L (n / N) (n % N) laps_pos (omega (arith, slot-lt n))
      ∙ sym (position_lap n)

  pub add_lap_full : (n : ℕ) → wrapping_add (index_bits b) (position n + 1) L ≡ position (n + N) + 1
  unfolding wrapping_add
  add_lap_full n =
      ap₂ (λ x m. x % m) (omega arith) words
      ∙ next_lap laps L (n / N) (n % N + 1) laps_pos (omega (arith, slot-lt n))
      ∙ omega (arith, position_lap n)

  pub sub_lap : (n : ℕ) → wrapping_sub (index_bits b) (position (n + N)) L ≡ position n
  unfolding wrapping_sub wrapping_add
  sub_lap n =
      sub_of_add (2 ^ index_bits b) L (position n) (position (n + N)) (omega (arith, position-lt n))
        (omega (arith, words, digits-lt laps L 1 0 (omega arith) (omega arith))) (add_lap n)

  -- The successor of ticket `n` is at the next index of its lap, or at index 0 of the next lap.
  suc_position : (n : ℕ) → n % N + 1 < N → (suc n / N ≡ n / N) × (suc n % N ≡ n % N + 1)
  suc_position n h = (
    ap (λ x. x / N) whole ∙ div_unique N (n / N) (n % N + 1) h,
    ap (λ x. x % N) whole ∙ mod_unique N (n / N) (n % N + 1) h,
  )
    where
      whole : suc n ≡ n / N * N + (n % N + 1)
      whole = omega (arith, div-add-mod' n N)

  suc_position_last : (n : ℕ) → N ≤ n % N + 1 → (suc n / N ≡ n / N + 1) × (suc n % N ≡ 0)
  suc_position_last n h = (
    ap (λ x. x / N) whole ∙ div_unique N (n / N + 1) 0 cap_pos,
    ap (λ x. x % N) whole ∙ mod_unique N (n / N + 1) 0 cap_pos,
  )
    where
      whole : suc n ≡ (n / N + 1) * N + 0
      whole = omega (arith, div-add-mod' n N, slot-lt n)

  -- The test of `next_pos`, with the index and the lap of ticket `n` put in.
  next_pos_test :
      (n : ℕ)
      → next_pos b N L (position n) ≡ (
          if ltb (n % N + 1) N
          then wrapping_add (index_bits b) (position n) 1
          else wrapping_add (index_bits b) (n / N % laps * L) L)
  unfolding next_pos
  next_pos_test n =
      ap₂
        (λ i l. if ltb i N then (position n + 1) % 2 ^ index_bits b else (l + L) % 2 ^ index_bits b)
        (ap (λ i. (i + 1) % 2 ^ b.pointer_width) (index_of-position n)
          ∙ mod-eq_of_lt (omega (arith, slot-lt n)))
        (lap_of-position n)

  pub next_pos-position : (n : ℕ) → next_pos b N L (position n) ≡ position (suc n)
  unfolding wrapping_add
  next_pos-position n = elim (dec_lt (n % N + 1) N) [
    | yes lt ↦
        let (quotient, remainder) = suc_position n lt in
        next_pos_test n
        ∙ rw (lt→ltb (n % N + 1) N lt) (
            mod-eq_of_lt (position-lt n)
            ∙ sym (ap₂ (λ q r. q % laps * L + r) quotient remainder ∙ omega arith))
    | no ge ↦
        let (quotient, remainder) = suc_position_last n (omega arith) in
        next_pos_test n
        ∙ rw (le→not-ltb (n % N + 1) N (omega arith)) (
            ap₂ (λ x m. x % m) (omega arith) words
            ∙ next_lap laps L (n / N) 0 laps_pos (omega arith)
            ∙ sym (ap₂ (λ q r. q % laps * L + r) quotient remainder))
  ]

  -- Tickets less than `N * laps` apart have different words.
  pub position_injective : (m n : ℕ) → m ≤ n → n < m + N * laps → position m ≡ position n → m ≡ n
  position_injective m n le lt e =
      let (turns, slots) =
        digits_injective L (m / N % laps) (m % N) (n / N % laps) (n % N) (omega (arith, slot-lt m))
          (omega (arith, slot-lt n)) e in
      let near = div-lt-add N laps m n cap_pos le lt slots in
      let same : m / N ≡ n / N = mod_injective laps (m / N) (n / N) near.0 near.1 turns in
      sym (div-add-mod' m N) ∙ ap₂ (λ q r. q * N + r) same slots ∙ div-add-mod' n N

  -- The stamp after a ticket is the position of no ticket of that slot.
  pub position-ne-full : (m n : ℕ) → m % N ≡ n % N → position m ≢ position n + 1
  position-ne-full m n same e = absurd (
      omega (
        arith,
        (digits_injective L (m / N % laps) (m % N) (n / N % laps) (n % N + 1)
            (omega (arith, slot-lt m)) (omega (arith, slot-lt n)) (e ∙ omega arith)).1,
      ))
