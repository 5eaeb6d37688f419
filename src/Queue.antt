-- ===== src/Queue.antt =====
-- `Queue` of src/lib.rs: its memory, and how `new` lays it out. The capacity `N` is a parameter of the
-- type there, and of the functions here.
pub mod New
use nure_queue.Common.{ℕ, zero, suc, ◌+◌, ◌/◌, Option, none, some, ltb, if◌then◌else◌}
use nure_queue.Common.Family.{update}
use nure_queue.Target.{Build, index_bits, isize_max, as_index}
use nure_queue.Lap.{one_lap_for}
use nure_queue.Slot.{Slot}

-- `buffer` is the array of `MaybeUninit<Slot<T>>`: `none` is a slot that was never initialized, or an
-- index out of range. `Padded` is the place of a word in memory, and is left out.
pub record Queue {ℓ} (A : Type ℓ) : Type ℓ where
  pub head : ℕ
  pub tail : ℕ
  pub buffer : ℕ → Option (Slot A)
  pub one_lap : ℕ

module _ {ℓ} {A : Type ℓ} (b : Build) where
  -- `while i < N { buffer[i] = …; i += 1; }`, by the rounds that are left.
  unfoldable pub fill : ℕ → ℕ → (ℕ → Option (Slot A)) → ℕ → Option (Slot A)
  fill zero i buffer = buffer
  fill (suc rounds) i buffer =
      fill rounds (i + 1) (update buffer i (some (record { stamp = as_index b i; value = none })))

  -- The end of `new`, with the lap computed.
  unfoldable pub empty_queue : ℕ → ℕ → Queue A
  empty_queue N lap = record { head = 0; tail = 0; buffer = fill N 0 (λ _. none); one_lap = lap }

  -- `none` is a panic: an assertion that failed.
  unfoldable pub new : ℕ → Option (Queue A)
  unfolding empty_queue
  new N =
      if ltb 0 N
      then (if ltb (isize_max b / 2) N
          then none
          else elim (one_lap_for (index_bits b) (as_index b N)) [
            | none ↦ none
            | some lap ↦ some (empty_queue N lap)
          ])
      else none

  -- `Default for Queue`
  pub default : ℕ → Option (Queue A)
  unfolding new
  default N = new N

-- `capacity`
pub capacity {ℓ} : {A : Type ℓ} → ℕ → Queue A → ℕ
capacity N q = N
