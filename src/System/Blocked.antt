-- ===== src/System/Blocked.antt =====
-- A pop that is stopped between its compare-exchange and the store of the stamp, in a queue that was full
-- before it: the slot that the next push waits for.
use nure_queue.Common.{
  ℕ, zero, suc, ◌+◌, ◌-◌, ◌*◌, ◌%◌, ◌≤◌, ◌<◌, ◌≡◌, ◌≢◌, refl, sym, ap, ap₂, ◌∙◌, Bool, List, Option,
  none, some, eq→==, ne→not-==, arith,
}
use nure_queue.Target.{Build, index_bits, wrapping_add, wrapping_sub}
use nure_queue.Lap.{index_of, distance}
use nure_queue.Lap.Geometry.{Geometry}
use nure_queue.Lap.Ticket.{position, add_one, add_lap, add_lap_full, sub_lap, position-ne-full}
use nure_queue.Backoff.{Backoff, spin, fresh}
use nure_queue.Queue.{Queue}
use nure_queue.Thread.{
  Closure, when_full, ring, Point, push_tail, push_stamp, full_head, ring_claim, pop_read,
  pop_publish, Call, entry,
}
use nure_queue.Thread.Step.{step, after_push_stamp}
use nure_queue.Thread.Step.Laws.{step-push_stamp}
use nure_queue.Solo.{run, call, next_flag, later_flags}
use nure_queue.System.{System, Reach}
use nure_queue.System.Invariant.Defs.{
  Ghost, Memory, At, Local, Stage, popping, reading, stamp_of, content_of,
}
use nure_queue.System.Invariant.Stamps.{near_position}
use nure_queue.System.Invariant.Moves.{slot_index, slot-At, Bounds-At}
use nure_queue.System.Invariant.All.{Reach-Inv}
use nure_queue.System.Answers.{memory_count}
use native.Mathlib.Nat.{add-mod_right}

module _ {A : Type 0} where
  -- A pop that has taken the position `w` and has not stored the stamp.
  pub data Unreleased (w : ℕ) : Point A → Type 0 where
    reads : Unreleased w (pop_read w)
    publishes : (msg : A) → Unreleased w (pop_publish msg w)

-- The memory, where the slot of the tail still has the stamp of a full one of the lap before, and its
-- value has been taken.
module _ {A : Type 0} {b : Build} {N L : ℕ} (g : Geometry b N L) (far : 3 * N ≤ N * g.laps)
    (x : Ghost A) (q : Queue A) (v : Memory g x q) (n : ℕ) (taken : n < x.takes)
    (last : x.puts ≡ n + N) (o : Option A)
    (slot : q.buffer (n % N) ≡ some (record { stamp = position g n + 1; value = o })) where
  tail_lap : q.tail ≡ position g (n + N)
  tail_lap = v.tail ∙ ap (position g) last

  tail_index : index_of b q.one_lap q.tail ≡ n % N
  tail_index = slot_index g 0 v (n + N) tail_lap ∙ add-mod_right n N

  sees_behind :
      (c : Closure) (u : A) (k : Backoff)
      → after_push_stamp b N q c u k q.tail (position g n + 1)
        ≡ elim c [ when_full ↦ full_head u k q.tail | ring ↦ ring_claim u k q.tail ]
  unfolding after_push_stamp
  sees_behind c u k = rw (
    ne→not-== q.tail (position g n + 1)
        (λ e. position-ne-full g (n + N) n (add-mod_right n N) (sym tail_lap ∙ e)),
    eq→== (wrapping_add (index_bits b) (position g n + 1) q.one_lap)
        (wrapping_add (index_bits b) q.tail 1)
        (ap (wrapping_add (index_bits b) (position g n + 1)) v.lap
          ∙ add_lap_full g n
          ∙ sym (ap (λ w. wrapping_add (index_bits b) w 1) tail_lap ∙ add_one g (n + N))),
  )

  head_moved : position g x.takes ≢ position g n
  head_moved e = omega (
    arith,
    near_position g x.takes n (omega (arith, v.ordered, g.cap_pos)) (omega (arith, g.cap_pos)) e,
  )

  not_full : wrapping_add (index_bits b) q.head q.one_lap ≢ q.tail
  not_full e = omega (
    arith,
    near_position g (x.takes + N) (n + N) (omega (arith, v.ordered, g.cap_pos))
        (omega (arith, g.cap_pos))
        (sym (ap₂ (wrapping_add (index_bits b)) v.head v.lap ∙ add_lap g x.takes) ∙ e ∙ tail_lap),
  )

  not_behind : q.head ≢ wrapping_sub (index_bits b) q.tail q.one_lap
  not_behind e =
      head_moved (sym v.head ∙ e ∙ ap₂ (wrapping_sub (index_bits b)) tail_lap v.lap ∙ sub_lap g n)

  sees :
      (fuel : ℕ) (flags : List Bool) (c : Closure) (u : A) (k : Backoff)
      → run b N fuel
          (later_flags flags)
          q
          (elim c [ when_full ↦ full_head u k q.tail | ring ↦ ring_claim u k q.tail ])
        ≡ none
      → run b N (suc fuel) flags q (push_stamp c u k q.tail) ≡ none
  unfolding run
  sees fuel flags c u k h =
      ap (λ (s : Queue A × Point A). run b N fuel (later_flags flags) s.0 s.1)
        (step-push_stamp b N (next_flag flags) q q.tail (n % N) _ o tail_index slot c u k
          ∙ ap (λ p. (q, p)) (sees_behind c u k))
      ∙ h

  waits :
      (fuel : ℕ) (flags : List Bool) (c : Closure) (u : A) (k : Backoff)
      → (run b N fuel flags q (push_tail c u k) ≡ none)
        × (run b N fuel flags q (push_stamp c u k q.tail) ≡ none)
        × (run b N fuel flags q
              (elim c [ when_full ↦ full_head u k q.tail | ring ↦ ring_claim u k q.tail ])
            ≡ none)
  unfolding run step
  waits zero flags when_full u k = (refl, refl, refl)
  waits zero flags ring u k = (refl, refl, refl)
  waits (suc fuel) flags when_full u k = (
    (waits fuel (later_flags flags) when_full u k).1,
    sees fuel flags when_full u k (waits fuel (later_flags flags) when_full u k).2,
    rw (ne→not-== (wrapping_add (index_bits b) q.head q.one_lap) q.tail not_full)
        (waits fuel (later_flags flags) when_full u (spin b k).0).0,
  )
  waits (suc fuel) flags ring u k = (
    (waits fuel (later_flags flags) ring u k).1,
    sees fuel flags ring u k (waits fuel (later_flags flags) ring u k).2,
    rw (ne→not-== q.head (wrapping_sub (index_bits b) q.tail q.one_lap) not_behind)
        (waits fuel (later_flags flags) ring u (spin b k).0).0,
  )

module _ {A : Type 0} {b : Build} {N L : ℕ} (g : Geometry b N L) where
  -- What is known of the slot of such a pop, where the tail is a lap ahead of it.
  abbrev Behind : Ghost A → Queue A → Type 0
  Behind x q =
      (n : ℕ) × (n < x.takes)
      × (x.puts ≡ n + N)
      × ((o : Option A) × (q.buffer (n % N)
            ≡ some (record { stamp = position g n + 1; value = o })))

  Behind-At :
      (x : Ghost A) (q : Queue A) (n w : ℕ) (s : Stage)
      → 3 * N ≤ N * g.laps
      → (v : Memory g x q) → At g x n s
      → w ≡ position g n
      → stamp_of g s ≡ position g n + 1
      → (n < x.takes) × (x.puts ≤ n + N)
      → q.tail ≡ wrapping_add (index_bits b) w L
      → Behind x q
  Behind-At x q n w s far v here e st bounds tail =
      let lap : position g x.puts ≡ position g (n + N) =
        sym v.tail ∙ tail ∙ ap (λ z. wrapping_add (index_bits b) z L) e ∙ add_lap g n in
      (
        n,
        bounds.0,
        near_position g x.puts (n + N) (omega (arith, bounds, g.cap_pos))
            (omega (arith, bounds, v.ordered, g.cap_pos)) lap,
        (
          content_of N x.value s,
          slot-At g 0 v n here
              ∙ ap (λ m. some (record { stamp = m; value = content_of N x.value s })) st,
        ),
      )

  tail-Behind :
      (x : Ghost A) (q : Queue A) (a j w : ℕ) (p : Point A)
      → 3 * N ≤ N * g.laps
      → Memory g x q
      → Unreleased w p
      → q.tail ≡ wrapping_add (index_bits b) w L
      → Local g x a j p
      → Behind x q
  tail-Behind x q a j w _ far v reads tail (n, e, here, _) =
      Behind-At x q n w (popping j n) far v here e refl (Bounds-At g 0 v n here) tail
  tail-Behind x q a j w _ far v (publishes msg) tail (n, e, here, _) =
      Behind-At x q n w (reading j n) far v here e refl (Bounds-At g 0 v n here) tail

  -- In every state that a new queue gets into by any interleaving of any number of threads:
  -- where a pop has taken a position and has not stored the stamp, and the tail is one lap ahead of that
  -- position, the queue is not full, and a `push` or `force_push` that makes accesses while that pop and
  -- the other threads make none does not return, however many it makes. The condition: while a thread
  -- works on a position that it has loaded, the threads make fewer than `patience` accesses, and these
  -- with three laps of the buffer are no more than the positions of the words.
  pub push_stalls :
      (n patience : ℕ) (first : ℕ → Call A) (s : System A)
      → patience + 3 * N ≤ N * g.laps
      → Reach b N n patience L first s
      → (j w : ℕ) → Unreleased w (s.at j)
      → s.queue.tail ≡ wrapping_add (index_bits b) w L
      → (distance b N L s.queue.head s.queue.tail < N)
        × ((fuel : ℕ) (flags : List Bool) (u : A)
            → (call b N fuel flags (Call.push u) s.queue ≡ none)
              × (call b N fuel flags (Call.force_push u) s.queue ≡ none))
  unfolding call entry
  push_stalls n patience first s far r j w un tail =
      let (x, inv) = Reach-Inv g n patience far r in
      let v = inv.memory in
      let wide : 3 * N ≤ N * g.laps = omega (arith, far) in
      let (m, taken, last, (o, slot)) =
        tail-Behind x s.queue (s.age j) j w (s.at j) wide v un tail (inv.threads j) in
      (
        omega (
          arith,
          memory_count g v (x.puts - x.takes) (omega (arith, v.ordered)) (omega (arith, v.within)),
          taken,
          last,
          v.ordered,
          g.cap_pos,
        ),
        λ fuel flags u. (
          (waits g wide x s.queue v m taken last o slot fuel flags when_full u fresh).0,
          (waits g wide x s.queue v m taken last o slot fuel flags ring u fresh).0,
        ),
      )
