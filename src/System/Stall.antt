-- ===== src/System/Stall.antt =====
-- A push that is stopped between its compare-exchange and the store of the stamp.
use nure_queue.Common.{
  ℕ, zero, suc, ◌+◌, ◌-◌, ◌*◌, ◌%◌, ◌≤◌, ◌<◌, ◌≡◌, ◌≢◌, refl, sym, ap, ap₂, subst, ◌∙◌, Bool, List,
  Option, none, some, eq→==, ne→not-==, arith,
}
use nure_queue.Target.{Build, index_bits, wrapping_add}
use nure_queue.Lap.{distance}
use nure_queue.Lap.Geometry.{Geometry}
use nure_queue.Lap.Ticket.{position, add_one}
use nure_queue.Backoff.{Backoff, spin, fresh}
use nure_queue.Queue.{Queue}
use nure_queue.Thread.{
  Closure, Point, push_write, push_publish, pop_head, pop_stamp, pop_tail, Call, entry,
}
use nure_queue.Thread.Step.{step, after_pop_stamp}
use nure_queue.Thread.Step.Laws.{step-pop_stamp}
use nure_queue.Solo.{run, call, next_flag, later_flags}
use nure_queue.System.{System, Reach}
use nure_queue.System.Invariant.Defs.{
  Ghost, Memory, At, Local, Stage, claimed, writing, stamp_of, content_of,
}
use nure_queue.Lap.Distance.{lap_room}
use nure_queue.System.Invariant.Stamps.{near_position}
use nure_queue.System.Invariant.Moves.{slot_index, slot-At, Bounds-At}
use nure_queue.System.Invariant.All.{Reach-Inv}
use nure_queue.System.Answers.{memory_count}

module _ {A : Type 0} where
  -- A push that has taken the position `w` and has not stored the stamp.
  pub data Unpublished (w : ℕ) : Point A → Type 0 where
    writes : (c : Closure) (u : A) → Unpublished w (push_write c u w)
    publishes : (c : Closure) → Unpublished w (push_publish c w)

-- The memory, where the slot of the head still has the stamp of an empty one.
module _ {A : Type 0} {b : Build} {N L : ℕ} (g : Geometry b N L) (x : Ghost A) (q : Queue A)
    (v : Memory g x q) (some_left : x.takes < x.puts) (o : Option A)
    (slot : q.buffer (x.takes % N) ≡ some (record { stamp = position g x.takes; value = o })) where
  sees_waiting :
      (k : Backoff) → after_pop_stamp {A = A} b N k q.head (position g x.takes) ≡ pop_tail k q.head
  unfolding after_pop_stamp
  sees_waiting k =
      rw
        (
          ne→not-== (wrapping_add (index_bits b) q.head 1) (position g x.takes) (λ e.
              omega
                (arith, ap (λ w. wrapping_add (index_bits b) w 1) v.head ∙ add_one g x.takes, e)),
          eq→== (position g x.takes) q.head (sym v.head),
        )
        refl

  not_empty : q.tail ≢ q.head
  not_empty e = omega (
    arith,
    near_position g x.puts x.takes (omega (arith, v.within, room)) (omega (arith, v.within, room))
        (sym v.tail ∙ e ∙ v.head),
  )
    where
      room : N + N ≤ N * g.laps
      room = omega (arith, lap_room g)

  waits :
      (fuel : ℕ) (flags : List Bool) (k : Backoff)
      → (run b N fuel flags q (pop_head k) ≡ none)
        × (run b N fuel flags q (pop_stamp k q.head) ≡ none)
        × (run b N fuel flags q (pop_tail k q.head) ≡ none)
  unfolding run step
  waits zero flags k = (refl, refl, refl)
  waits (suc fuel) flags k = (
    (waits fuel (later_flags flags) k).1,
    ap (λ (s : Queue A × Point A). run b N fuel (later_flags flags) s.0 s.1)
          (step-pop_stamp b N (next_flag flags) q q.head (x.takes % N) _ o
              (slot_index g 0 v x.takes v.head) slot k
            ∙ ap (λ p. (q, p)) (sees_waiting k))
        ∙ (waits fuel (later_flags flags) k).2,
    rw (ne→not-== q.tail q.head not_empty) (waits fuel (later_flags flags) (spin b k).0).0,
  )

module _ {A : Type 0} {b : Build} {N L : ℕ} (g : Geometry b N L) where
  first_waits :
      (x : Ghost A) (q : Queue A) (v : Memory g x q) (n : ℕ) (s : Stage) (o : Option A)
      → At g x n s
      → position g n ≡ q.head
      → stamp_of g s ≡ position g n
      → content_of N x.value s ≡ o
      → (x.takes ≤ n) × (n < x.puts)
      → (x.takes < x.puts)
        × ((o : Option A) × (q.buffer (x.takes % N)
              ≡ some (record { stamp = position g x.takes; value = o })))
  first_waits x q v n s o here e st co bounds =
      let now : n ≡ x.takes =
        near_position g n x.takes (omega (arith, v.within, lap_room g))
          (omega (arith, v.within, lap_room g)) (e ∙ v.head) in
      (
        omega arith,
        (
          o,
          subst (λ m. q.buffer (m % N) ≡ some (record { stamp = position g m; value = o })) now
              (slot-At g 0 v n here ∙ ap₂ (λ m c. some (record { stamp = m; value = c })) st co),
        ),
      )

  -- Such a push at the head has a slot with the stamp of an empty one.
  head_waits :
      (x : Ghost A) (q : Queue A) (a j : ℕ) (p : Point A)
      → Memory g x q
      → Unpublished q.head p
      → Local g x a j p
      → (x.takes < x.puts)
        × ((o : Option A) × (q.buffer (x.takes % N)
              ≡ some (record { stamp = position g x.takes; value = o })))
  head_waits x q a j _ v (writes c u) (n, e, here, _, _) =
      first_waits x q v n (claimed j n) none here (sym e) refl refl (Bounds-At g 0 v n here)
  head_waits x q a j _ v (publishes c) (n, e, here, _) =
      first_waits x q v n (writing j n) _ here (sym e) refl refl (Bounds-At g 0 v n here)

  -- In every state that a new queue gets into by any interleaving of any number of threads:
  -- where a push has taken the position at the head and has not stored the stamp, the queue is
  -- not empty, and a pop that makes accesses while that push and the other threads make none
  -- does not return, however many it makes. The condition: while a thread works on a position
  -- that it has loaded, the threads make fewer than `patience` accesses, and these with three
  -- laps of the buffer are no more than the positions of the words.
  pub pop_stalls :
      (n patience : ℕ) (first : ℕ → Call A) (s : System A)
      → patience + 3 * N ≤ N * g.laps
      → Reach b N n patience L first s
      → (j : ℕ) → Unpublished s.queue.head (s.at j)
      → (0 < distance b N L s.queue.head s.queue.tail)
        × ((fuel : ℕ) (flags : List Bool) → call b N fuel flags Call.pop s.queue ≡ none)
  unfolding call entry
  pop_stalls n patience first s far r j un =
      let (x, inv) = Reach-Inv g n patience far r in
      let v = inv.memory in
      let (some_left, (o, slot)) = head_waits x s.queue (s.age j) j (s.at j) v un (inv.threads j) in
      (
        omega (
          arith,
          memory_count g v (x.puts - x.takes) (omega (arith, v.ordered)) (omega (arith, v.within)),
          some_left,
        ),
        λ fuel flags. (waits g x s.queue v some_left o slot fuel flags fresh).0,
      )
