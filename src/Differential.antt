-- ===== src/Differential.antt =====
-- The model checks of tests/differential.rs: the queue and a `VecDeque` side by side. The values are the
-- bytes that the tests push, as numbers. Beside each operation stand the flags of its spurious failures.
pub mod Passes
pub mod Drops
pub mod Fuzz
use nure_queue.Common.{
  ℕ, suc, ◌+◌, Bool, true, false, ◌&&◌, List, [], ◌∷◌, Option, none, some, ℕ_discrete,
}
use mathlib.Core.Bool.{decide}
use nure_queue.Target.{Build}
use nure_queue.Queue.{Queue, new}
use nure_queue.Thread.{Reply, Call}
use nure_queue.Fifo
use nure_queue.Solo.{call}
use nure_queue.Solo.Run.{enough}

abbrev Option-discrete : Discrete (Option ℕ)
Option-discrete = hlevel ℕ_discrete

pub Reply-discrete : Discrete (Reply ℕ)
Reply-discrete = hlevel (ℕ_discrete, Option-discrete)

-- `assert_eq!` of a reply, and then the rest; a method that does not return fails the check.
pub judge : Option (Reply ℕ × Queue ℕ) → Reply ℕ → (Queue ℕ → Bool) → Bool
judge none expected rest = false
judge (some (r, q)) expected rest = decide (Reply-discrete r expected) && rest q

module _ (b : Build) (N : ℕ) where
  -- `for &op in ops`: each reply is the one that the `VecDeque` leads to.
  check_from : Queue ℕ → List ℕ → List (Call ℕ × List Bool) → Bool
  unfolding judge
  check_from q model [] = true
  check_from q model ((op, flags) ∷ ops) =
      let (expected, model') = Fifo.answer N op model in
      judge (call b N (enough flags) flags op q) expected (λ q'. check_from q' model' ops)

  check_new : Option (Queue ℕ) → List (Call ℕ × List Bool) → Bool
  unfolding check_from
  check_new none ops = false
  check_new (some q) ops = check_from q [] ops

  -- `check_ops`
  pub check_ops : List (Call ℕ × List Bool) → Bool
  unfolding check_new
  check_ops ops = check_new (new b N) ops
