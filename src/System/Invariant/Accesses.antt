-- ===== src/System/Invariant/Accesses.antt =====
-- Every access of a thread leaves the invariant true, and is an action of the specification.
use nure_queue.Common.{ℕ, ◌+◌, ◌*◌, ◌≤◌, ◌<◌, ◌≡◌, refl, Bool, true, arith}
use nure_queue.Target.{Build}
use nure_queue.Lap.Geometry.{Geometry}
use nure_queue.Queue.{Queue}
use nure_queue.Thread.{
  Point, push_tail, push_stamp, push_claim, push_write, push_publish, full_head, ring_claim,
  ring_tail, ring_replace, ring_publish, pop_head, pop_stamp, pop_claim, pop_read, pop_publish,
  pop_tail, empty_head, empty_tail, full_tail, full_check, len_tail, len_head, len_again, done,
  fault,
}
use nure_queue.Thread.Step.{step}
use nure_queue.System.{relies}
use nure_queue.System.Invariant.Defs.{Ghost, Memory, Local}
use nure_queue.System.Invariant.Owns.{slot_of}
use nure_queue.System.Invariant.Moves.{Next, stay}
use nure_queue.System.Invariant.PushStamps.{safe-push_stamp}
use nure_queue.System.Invariant.Pushes.{
  safe-push_claim, safe-push_write, safe-push_publish, safe-full_head,
}
use nure_queue.System.Invariant.Pops.{
  safe-pop_stamp, safe-pop_claim, safe-pop_read, safe-pop_publish, safe-pop_tail,
}
use nure_queue.System.Invariant.Observers.{safe-full_check, safe-len_head, safe-len_again}
use nure_queue.System.Invariant.Pops.{safe-empty_tail}
use nure_queue.System.Invariant.Rings.{
  safe-ring_claim, safe-ring_tail, safe-ring_replace, safe-ring_publish,
}

module _ {A : Type 0} {b : Build} {N L : ℕ} (g : Geometry b N L) where
  -- Any access of thread `i`.
  pub safe-step :
      (i : ℕ) (f : Bool) {x : Ghost A} {q : Queue A} (a patience : ℕ) (p : Point A)
      → patience + 3 * N ≤ N * g.laps
      → Memory g x q
      → (relies p ≡ true → a < patience)
      → Local g x a i p
      → Next g i a x (slot_of b L p) (step b N f q p)
  unfolding step
  safe-step i f a patience (push_tail c w k) far v soon l =
      stay g i a (push_stamp c w k _) v (_, (v.tail, omega arith, omega arith), l)
  safe-step i f a patience (push_stamp c w k tail) far v soon l =
      safe-push_stamp g i f v a (omega (arith, soon refl)) c w k tail l
  safe-step i f a patience (push_claim c w k tail) far v soon l =
      safe-push_claim g i f v a (omega (arith, soon refl)) c w k tail l
  safe-step i f a patience (push_write c w tail) far v soon l = safe-push_write g i f v a c w tail l
  safe-step i f a patience (push_publish c tail) far v soon l = safe-push_publish g i f v a c tail l
  safe-step i f a patience (full_head w k tail) far v soon l =
      safe-full_head g i f v a (omega (arith, soon refl)) w k tail l
  safe-step i f a patience (ring_claim w k tail) far v soon l =
      safe-ring_claim g i f v a (omega (arith, soon refl)) w k tail l
  safe-step i f a patience (ring_tail w tail) far v soon l = safe-ring_tail g i f v a w tail l
  safe-step i f a patience (ring_replace w tail) far v soon l = safe-ring_replace g i f v a w tail l
  safe-step i f a patience (ring_publish old tail) far v soon l =
      safe-ring_publish g i f v a old tail l
  safe-step i f a patience (pop_head k) far v soon l =
      stay g i a (pop_stamp k _) v (_, (v.head, omega arith, omega arith), l)
  safe-step i f a patience (pop_stamp k head) far v soon l =
      safe-pop_stamp g i f v a (omega (arith, soon refl)) k head l
  safe-step i f a patience (pop_claim k head) far v soon l =
      safe-pop_claim g i f v a (omega (arith, soon refl)) k head l
  safe-step i f a patience (pop_read head) far v soon l = safe-pop_read g i f v a head l
  safe-step i f a patience (pop_publish msg head) far v soon l =
      safe-pop_publish g i f v a msg head l
  safe-step i f a patience (pop_tail k head) far v soon l =
      safe-pop_tail g i f v a (omega (arith, soon refl)) k head l
  safe-step i f a patience empty_head far v soon l =
      stay g i a (empty_tail _) v (_, (v.head, omega arith, omega arith), l)
  safe-step i f a patience (empty_tail head) far v soon l =
      safe-empty_tail g i f v a (omega (arith, soon refl)) head l
  safe-step i f a patience full_tail far v soon l =
      stay g i a (full_check _) v (_, (v.tail, omega arith, omega arith), l)
  safe-step i f a patience (full_check tail) far v soon l =
      safe-full_check g i f v a (omega (arith, soon refl)) tail l
  safe-step i f a patience len_tail far v soon l =
      stay g i a (len_head _) v (_, (v.tail, omega arith, omega arith), l)
  safe-step i f a patience (len_head tail) far v soon l =
      safe-len_head g i f v a (omega (arith, soon refl)) tail l
  safe-step i f a patience (len_again tail head) far v soon l =
      safe-len_again g i f v a (omega (arith, soon refl)) tail head l
  safe-step i f a patience (done r) far v soon l = stay g i a (done r) v l
  safe-step i f a patience fault far v soon l = absurd l
