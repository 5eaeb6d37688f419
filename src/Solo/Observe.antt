-- ===== src/Solo/Observe.antt =====
-- `is_empty`, `is_full` and `len` on a queue that no other thread is in.
use nure_queue.Common.{
  ℕ, zero, suc, ◌+◌, ◌≤◌, ◌≡◌, refl, ap, ap₂, ◌∙◌, Bool, List, length, ◌==◌, eq→==, arith,
}
use nure_queue.Target.{Build, index_bits, wrapping_add}
use nure_queue.Lap.{distance}
use nure_queue.Lap.Geometry.{Geometry}
use nure_queue.Lap.Ticket.{add_lap}
use nure_queue.Lap.Distance.{position-==, same_position, distance-position}
use nure_queue.Queue.{Queue}
use nure_queue.Thread.{flag, count, done, empty_head, full_tail, len_tail, len_again}
use nure_queue.Thread.Step.{step}
use nure_queue.Solo.{next_flag, later_flags}
use nure_queue.Solo.Run.{Gives, Gives-step, Gives-done}
use nure_queue.Solo.Holds.{Holds}

module _ {ℓ} {A : Type ℓ} {b : Build} {N L : ℕ} {g : Geometry b N L} {h : ℕ} {xs : List A}
    {q : Queue A} (v : Holds g h xs q) where
  open v use {lap, head, tail, fits}

  empty_test : (q.tail == q.head) ≡ (length xs == 0)
  empty_test = ap₂ ◌==◌ tail head ∙ same_position g h (length xs) fits

  full_test : (wrapping_add (index_bits b) q.head q.one_lap == q.tail) ≡ (length xs == N)
  full_test =
      ap₂ ◌==◌ (ap₂ (wrapping_add (index_bits b)) head lap ∙ add_lap g h) tail
      ∙ position-== g (h + length xs) (h + N) (omega arith) (omega (arith, g.cap_pos))
      ∙ ground arith

  pub length_lem : distance b N q.one_lap q.head q.tail ≡ length xs
  length_lem =
      ap (λ l. distance b N l q.head q.tail) lap
      ∙ ap₂ (distance b N L) head tail
      ∙ distance-position g h (length xs) fits

  len_returns : (f : Bool) → step b N f q (len_again q.tail q.head) ≡ (q, done (count (length xs)))
  unfolding step
  len_returns f =
      ap (λ t. (q, t)) (rw (eq→== q.tail q.tail refl) (ap (λ n. done (count n)) length_lem))

  pub is_empty_lem :
      (fuel : ℕ) (flags : List Bool)
      → 3 ≤ fuel
      → Gives g fuel flags q empty_head (flag (length xs == 0)) xs
  unfolding step
  is_empty_lem zero flags h2 = absurd (omega arith)
  is_empty_lem (suc zero) flags h2 = absurd (omega arith)
  is_empty_lem (suc (suc fuel)) flags h2 = Gives-step g (suc fuel) flags q _ _ _ refl (
      Gives-step g fuel (later_flags flags) q _ _ _ (ap (λ t. (q, done (flag t))) empty_test)
        (Gives-done g fuel (later_flags (later_flags flags)) h q _ _ v))

  pub is_full_lem :
      (fuel : ℕ) (flags : List Bool)
      → 3 ≤ fuel
      → Gives g fuel flags q full_tail (flag (length xs == N)) xs
  unfolding step
  is_full_lem zero flags h2 = absurd (omega arith)
  is_full_lem (suc zero) flags h2 = absurd (omega arith)
  is_full_lem (suc (suc fuel)) flags h2 = Gives-step g (suc fuel) flags q _ _ _ refl (
      Gives-step g fuel (later_flags flags) q _ _ _ (ap (λ t. (q, done (flag t))) full_test)
        (Gives-done g fuel (later_flags (later_flags flags)) h q _ _ v))

  pub len_lem :
      (fuel : ℕ) (flags : List Bool)
      → 3 ≤ fuel
      → Gives g fuel flags q len_tail (count (length xs)) xs
  unfolding step
  len_lem zero flags h2 = absurd (omega arith)
  len_lem (suc zero) flags h2 = absurd (omega arith)
  len_lem (suc (suc zero)) flags h2 = absurd (omega arith)
  len_lem (suc (suc (suc fuel))) flags h2 = Gives-step g (suc (suc fuel)) flags q _ _ _ refl (
      Gives-step g (suc fuel) (later_flags flags) q _ _ _ refl (
        Gives-step g fuel (later_flags (later_flags flags)) q _ _ _
          (len_returns (next_flag (later_flags (later_flags flags))))
          (Gives-done g fuel (later_flags (later_flags (later_flags flags))) h q _ _ v)))
