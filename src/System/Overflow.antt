-- ===== src/System/Overflow.antt =====
-- The sums `tail + 1` and `head + 1` of src/lib.rs, which are not `wrapping_add`.
use nure_queue.Common.{ℕ, ◌+◌, ◌*◌, ◌^◌, ◌≤◌, ◌<◌, ◌≡◌, sym, subst}
use nure_queue.Target.{Build, index_bits}
use nure_queue.Lap.Geometry.{Geometry}
use nure_queue.Lap.Ticket.{position, position-lt}
use nure_queue.Backoff.{Backoff}
use nure_queue.Thread.{Closure, Point, push_stamp, push_publish, ring_publish, pop_stamp, Call}
use nure_queue.System.{System, Reach}
use nure_queue.System.Invariant.Defs.{Ghost, Local}
use nure_queue.System.Invariant.All.{Reach-Inv}

module _ {A : Type 0} where
  -- A thread whose next access computes `w + 1`.
  pub data AddsOne (w : ℕ) : Point A → Type 0 where
    push_test : (c : Closure) (v : A) (k : Backoff) → AddsOne w (push_stamp c v k w)
    push_store : (c : Closure) → AddsOne w (push_publish c w)
    ring_store : (old : A) → AddsOne w (ring_publish old w)
    pop_test : (k : Backoff) → AddsOne w (pop_stamp k w)

module _ {b : Build} {N L : ℕ} (g : Geometry b N L) where
  word_fits : (n w : ℕ) → w ≡ position g n → w + 1 < 2 ^ index_bits b
  word_fits n w e = subst (λ m. m + 1 < 2 ^ index_bits b) (sym e) (position-lt g n)

module _ {A : Type 0} {b : Build} {N L : ℕ} (g : Geometry b N L) where
  Local-fits :
      (x : Ghost A) (a i w : ℕ) (p : Point A)
      → AddsOne w p
      → Local g x a i p
      → w + 1 < 2 ^ index_bits b
  Local-fits x a i w _ (push_test c v k) (n, was, _) = word_fits g n w was.0
  Local-fits x a i w _ (push_store c) (n, e, _, _) = word_fits g n w e
  Local-fits x a i w _ (ring_store old) (n, e, _, _) = word_fits g (n + N) w e
  Local-fits x a i w _ (pop_test k) (n, was, _) = word_fits g n w was.0

  -- In every state that a new queue gets into by any interleaving of any number of threads, the sums
  -- `tail + 1` and `head + 1` that a thread is about to compute, for a test of a stamp or for the store of
  -- one, do not overflow `Index`. The condition: while a thread works on a position that it has loaded,
  -- the threads make fewer than `patience` accesses, and these with three laps of the buffer are no more
  -- than the positions of the words.
  pub sums_fit :
      (n patience : ℕ) (first : ℕ → Call A) (s : System A)
      → patience + 3 * N ≤ N * g.laps
      → Reach b N n patience L first s
      → (i w : ℕ) → AddsOne w (s.at i)
      → w + 1 < 2 ^ index_bits b
  sums_fit n patience first s far r i w adds =
      let (x, inv) = Reach-Inv g n patience far r in
      Local-fits x (s.age i) i w (s.at i) adds (inv.threads i)
