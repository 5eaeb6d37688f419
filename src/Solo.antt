-- ===== src/Solo.antt =====
-- A method called by one thread while no other thread is in the queue: the accesses of `Thread.Step`
-- one after another, as the loops of src/lib.rs make them. A list of flags says which accesses fail
-- spuriously where they are a `compare_exchange_weak`; past its end none does.
pub mod Holds
pub mod Run
pub mod Push
pub mod Pop
pub mod Full
pub mod Observe
pub mod Refine
pub mod RoundTrip
pub mod Fresh
use nure_queue.Common.{ℕ, zero, suc, Bool, false, List, [], ◌∷◌, Option, none, some}
use nure_queue.Target.{Build}
use nure_queue.Queue.{Queue}
use nure_queue.Thread.{Reply, Point, done, Call, entry}
use nure_queue.Thread.Step.{step}

abbrev pub next_flag : List Bool → Bool
next_flag [] = false
next_flag (f ∷ fs) = f

abbrev pub later_flags : List Bool → List Bool
later_flags [] = []
later_flags (f ∷ fs) = fs

module _ {ℓ} {A : Type ℓ} (b : Build) (N : ℕ) where
  -- What a method has returned: nothing while it runs, or after undefined behaviour.
  abbrev pub outcome : Queue A → Point A → Option (Reply A × Queue A)
  outcome q (done r) = some (r, q)
  outcome q _ = none

  -- So many accesses.
  unfoldable pub run : ℕ → List Bool → Queue A → Point A → Option (Reply A × Queue A)
  run zero flags q p = outcome q p
  run (suc fuel) flags q p =
      let (q', p') = step b N (next_flag flags) q p in run fuel (later_flags flags) q' p'

  -- One call of a method.
  unfoldable pub call : ℕ → List Bool → Call A → Queue A → Option (Reply A × Queue A)
  unfolding run entry
  call fuel flags c q = run fuel flags q (entry c)

  -- `enqueue`, the alias of `push`.
  unfoldable pub enqueue : ℕ → List Bool → A → Queue A → Option (Reply A × Queue A)
  unfolding call
  enqueue fuel flags v q = call fuel flags (Call.push v) q

  -- `dequeue`, the alias of `pop`.
  unfoldable pub dequeue : ℕ → List Bool → Queue A → Option (Reply A × Queue A)
  unfolding call
  dequeue fuel flags q = call fuel flags Call.pop q
