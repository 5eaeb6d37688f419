-- ===== src/Differential/Passes.antt =====
-- The model checks succeed on every sequence of operations, for every capacity.
use nure_queue.Common.{ℕ, ◌/◌, ◌≤◌, ◌<◌, ◌≡◌, refl, ap, ap₂, ◌∙◌, Bool, true, ◌&&◌, List, [], ◌∷◌}
use mathlib.Core.Bool.{decide, decide_iff}
use native.Mathlib.Nat.{le_refl}
use nure_queue.Target.{Build, IsTarget, isize_max}
use nure_queue.Lap.Geometry.{Geometry}
use nure_queue.Queue.{Queue}
use nure_queue.Queue.New.{new_accepts}
use nure_queue.Thread.{Reply, Call}
use nure_queue.Fifo
use nure_queue.Solo.Run.{enough}
use nure_queue.Solo.Holds.{Holds, empty_queue-Holds}
use nure_queue.Solo.Refine.{call_refines}
use nure_queue.Differential.{Reply-discrete, judge, check_from, check_new, check_ops}

pub same_reply : (r : Reply ℕ) → decide (Reply-discrete r r) ≡ true
same_reply r = (decide_iff (Reply-discrete r r)).1 refl

module _ {b : Build} {N L : ℕ} (g : Geometry b N L) where
  check_from_lem :
      (ops : List (Call ℕ × List Bool)) (xs : List ℕ) {h : ℕ} {q : Queue ℕ}
      → Holds g h xs q
      → check_from b N q xs ops ≡ true
  unfolding check_from
  check_from_lem [] xs v = refl
  check_from_lem ((op, flags) ∷ ops) xs v =
      let (h', q', runs, v') = call_refines g (enough flags) flags op xs v (le_refl _) in
      let (r, ys) = Fifo.answer N op xs in
      ap (λ o. judge o r (λ q'. check_from b N q' ys ops)) runs
      ∙ ap₂ ◌&&◌ (same_reply r) (check_from_lem ops ys v')

-- For every capacity that `new` accepts, `check_ops` succeeds on every sequence of operations with
-- every choice of spurious failures: each operation returns, and what it returns is what the test
-- expects by its `VecDeque`.
pub check_ops_succeeds :
    {b : Build} (N : ℕ) (ops : List (Call ℕ × List Bool))
    → IsTarget b
    → 0 < N
    → N ≤ isize_max b / 2
    → check_ops b N ops ≡ true
unfolding check_ops
check_ops_succeeds {b} N ops t pos small =
    let (lap, e, g) = new_accepts b t N pos small in
    ap (λ o. check_new b N o ops) e ∙ check_from_lem g ops [] (empty_queue-Holds g ℕ)
