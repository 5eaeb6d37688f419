-- ===== src/System/Alone/Head.antt =====
-- A thread at the head of a loop, in a queue where no thread has a slot to itself.
use nure_queue.Common.{ℕ, suc, ◌+◌, ◌*◌, ◌≤◌, Bool, false, List, [], ◌∷◌, length, dec_lt, arith}
use nure_queue.Target.{Build}
use nure_queue.Lap.Geometry.{Geometry}
use nure_queue.Backoff.{Backoff}
use nure_queue.Queue.{Queue}
use nure_queue.Thread.{Closure, when_full, ring, push_tail, push_stamp, pop_head, pop_stamp}
use nure_queue.Thread.Step.{step}
use nure_queue.Solo.{run}
use nure_queue.Solo.Run.{enough}
use nure_queue.Solo.Holds.{Holds}
use nure_queue.Solo.Push.{push_room}
use nure_queue.Solo.Full.{push_full, force_push_full}
use nure_queue.Solo.Pop.{pop_value, pop_none}
use nure_queue.System.Alone.{Ends, Gives-Ends}

-- At the head of a loop.
module _ {A : Type 0} {b : Build} {N L : ℕ} (g : Geometry b N L) where
  pub push_tail-Ends :
      (xs : List A) (fuel : ℕ) (flags : List Bool) (c : Closure) (u : A) (k : Backoff) {h : ℕ}
      {q : Queue A}
      → Holds g h xs q
      → enough flags ≤ fuel
      → Ends g fuel flags q (push_tail c u k)
  push_tail-Ends [] fuel flags c u k v le =
      Gives-Ends g _ _ _ _ (push_room v c u g.cap_pos fuel flags k le)
  push_tail-Ends (y ∷ ys) fuel flags when_full u k v le = elim (dec_lt (suc (length ys)) N) [
    | yes room ↦ Gives-Ends g _ _ _ _ (push_room v when_full u room fuel flags k le)
    | no none_left ↦ Gives-Ends g _ _ _ _ (push_full v u (omega (arith, v.fits)) fuel flags k le)
  ]
  push_tail-Ends (y ∷ ys) fuel flags ring u k v le = elim (dec_lt (suc (length ys)) N) [
    | yes room ↦ Gives-Ends g _ _ _ _ (push_room v ring u room fuel flags k le)
    | no none_left ↦
        Gives-Ends g _ _ _ _ (force_push_full v u (omega (arith, v.fits)) fuel flags k le)
  ]

  pub pop_head-Ends :
      (xs : List A) (fuel : ℕ) (flags : List Bool) (k : Backoff) {h : ℕ} {q : Queue A}
      → Holds g h xs q
      → enough flags ≤ fuel
      → Ends g fuel flags q (pop_head k)
  pop_head-Ends [] fuel flags k v le = Gives-Ends g _ _ _ _ (pop_none v fuel flags k le)
  pop_head-Ends (x ∷ xs) fuel flags k v le = Gives-Ends g _ _ _ _ (pop_value v fuel flags k le)

  -- The load at the head of the loop does not fail, so that a flag may be put before it.
  pub push_stamp-Ends :
      (xs : List A) (fuel : ℕ) (flags : List Bool) (c : Closure) (u : A) (k : Backoff) {h : ℕ}
      {q : Queue A}
      → Holds g h xs q
      → 3 * length flags + 10 ≤ fuel
      → Ends g fuel flags q (push_stamp c u k q.tail)
  unfolding run step
  push_stamp-Ends xs fuel flags c u k v le =
      push_tail-Ends xs (suc fuel) (false ∷ flags) c u k v (omega arith)

  pub pop_stamp-Ends :
      (xs : List A) (fuel : ℕ) (flags : List Bool) (k : Backoff) {h : ℕ} {q : Queue A}
      → Holds g h xs q
      → 3 * length flags + 10 ≤ fuel
      → Ends g fuel flags q (pop_stamp k q.head)
  unfolding run step
  pop_stamp-Ends xs fuel flags k v le =
      pop_head-Ends xs (suc fuel) (false ∷ flags) k v (omega arith)
