-- ===== src/System/Alone/Returns.antt =====
-- A thread that the others leave alone returns, from any point of any method.
use nure_queue.Common.{
  ℕ, zero, suc, ◌+◌, ◌*◌, ◌%◌, ◌≤◌, ◌<◌, ◌≡◌, ◌≢◌, refl, ap, ◌∙◌, Bool, true, false, List, length,
  none, some, if◌then◌else◌, ℕ_discrete, arith,
}
use nure_queue.Target.{Build}
use nure_queue.Lap.Geometry.{Geometry}
use nure_queue.Backoff.{Backoff, snooze}
use nure_queue.Queue.{Queue}
use nure_queue.Thread.{
  Reply, Call, Closure, when_full, ring, Point, push_tail, push_stamp, push_claim, push_write,
  push_publish, full_head, ring_claim, ring_tail, ring_replace, ring_publish, pop_head, pop_stamp,
  pop_claim, pop_read, pop_publish, pop_tail, empty_head, empty_tail, full_tail, full_check,
  len_tail, len_head, len_again, done, fault,
}
use nure_queue.Thread.Step.{step, after_push_stamp, after_pop_stamp}
use nure_queue.Thread.Step.Laws.{step-push_stamp, step-pop_stamp}
use nure_queue.Solo.{next_flag, later_flags, run}
use nure_queue.Solo.Run.{later_flags-le}
use nure_queue.Solo.Holds.{Holds}
use nure_queue.Solo.Observe.{is_empty_lem, is_full_lem, len_lem}
use nure_queue.System.{System, relies, next_age, Reach}
use nure_queue.System.Invariant.Moves.{slot_index, slot-At}
use nure_queue.System.Invariant.Defs.{contents}
use nure_queue.System.Invariant.Owns.{uses}
use nure_queue.System.Invariant.All.{Reach-Inv}
use nure_queue.System.Quiet.{Memory-Holds, no_owner}
use nure_queue.System.Alone.{Ends, Ends-step, Ends-done, Gives-Ends, Safe, Safe-step}
use nure_queue.System.Alone.Own.{
  push_write-Ends, push_publish-Ends, ring_tail-Ends, ring_replace-Ends, ring_publish-Ends,
  pop_read-Ends, pop_publish-Ends,
}
use nure_queue.System.Alone.Head.{push_tail-Ends, pop_head-Ends}
use nure_queue.System.Alone.Turn.{
  push_claim-Ends, ring_claim-Ends, pop_claim-Ends, full_head-Ends, pop_tail-Ends, len_again-Ends,
}

module _ {A : Type 0} {b : Build} {N L : ℕ} (g : Geometry b N L) (patience : ℕ)
    (far : patience + 3 * N ≤ N * g.laps) (i : ℕ) {h : ℕ} (xs : List A) {q : Queue A}
    (v : Holds g h xs q) where
  -- The three ways of a push after it has seen a stamp, and of a pop.
  push_ways :
      (one two : Bool) (fuel : ℕ) (flags : List Bool) (a : ℕ) (c : Closure) (u : A) (k k' : Backoff)
      (w : ℕ)
      → a + 1 < patience
      → 3 * length flags + 11 ≤ fuel
      → Safe g i
          (next_age {A = A} a (
            if one
            then push_claim c u k w
            else (if two
                then elim c [ when_full ↦ full_head u k w | ring ↦ ring_claim u k w ]
                else push_tail c u k')))
          q
          (if one
            then push_claim c u k w
            else (if two
                then elim c [ when_full ↦ full_head u k w | ring ↦ ring_claim u k w ]
                else push_tail c u k'))
      → Ends g fuel flags q (
          if one
          then push_claim c u k w
          else (if two
              then elim c [ when_full ↦ full_head u k w | ring ↦ ring_claim u k w ]
              else push_tail c u k'))
  push_ways true two fuel flags a c u k k' w soon le s =
      push_claim-Ends g patience far i xs v fuel flags (a + 1) c u k w soon le s
  push_ways false true fuel flags a when_full u k k' w soon le s =
      full_head-Ends g xs v fuel flags u k w le
  push_ways false true fuel flags a ring u k k' w soon le s =
      ring_claim-Ends g patience far i xs v fuel flags (a + 1) u k w soon le s
  push_ways false false fuel flags a c u k k' w soon le s =
      push_tail-Ends g xs fuel flags c u k' v (omega arith)

  pop_ways :
      (one two : Bool) (fuel : ℕ) (flags : List Bool) (a : ℕ) (k k' : Backoff) (w : ℕ)
      → a + 1 < patience
      → 3 * length flags + 11 ≤ fuel
      → Safe g i
          (next_age {A = A} a
            (if one then pop_claim k w else (if two then pop_tail k w else pop_head k')))
          q
          (if one then pop_claim k w else (if two then pop_tail k w else pop_head k'))
      → Ends g fuel flags q
          (if one then pop_claim k w else (if two then pop_tail k w else pop_head k'))
  pop_ways true two fuel flags a k k' w soon le s =
      pop_claim-Ends g patience far i xs v fuel flags (a + 1) k w soon le s
  pop_ways false true fuel flags a k k' w soon le s = pop_tail-Ends g xs v fuel flags k w le
  pop_ways false false fuel flags a k k' w soon le s =
      pop_head-Ends g xs fuel flags k' v (omega arith)

  push_seen-Ends :
      (fuel : ℕ) (flags : List Bool) (a : ℕ) (c : Closure) (u : A) (k : Backoff) (w : ℕ)
      → a + 1 < patience
      → 3 * length flags + 12 ≤ fuel
      → Safe g i a q (push_stamp c u k w)
      → Ends g fuel flags q (push_stamp c u k w)
  unfolding after_push_stamp
  push_seen-Ends zero flags a c u k w soon le s = absurd (omega arith)
  push_seen-Ends (suc fuel) flags a c u k w soon le s =
      let (x, m, (n, was, _)) = s in
      let f = next_flag flags in
      let e =
        step-push_stamp b N f q w (n % N) _ _ (slot_index g i m n was.0) (slot-At g i m n refl) c u
          k in
      Ends-step g fuel flags q _ e (
        push_ways _ _ fuel (later_flags flags) a c u k (snooze b k).0 w soon
          (omega (arith, later_flags-le flags))
          (Safe-step g patience i f a q _ far (λ _. omega arith) e s))

  pop_seen-Ends :
      (fuel : ℕ) (flags : List Bool) (a : ℕ) (k : Backoff) (w : ℕ)
      → a + 1 < patience
      → 3 * length flags + 12 ≤ fuel
      → Safe g i a q (pop_stamp k w)
      → Ends g fuel flags q (pop_stamp k w)
  unfolding after_pop_stamp
  pop_seen-Ends zero flags a k w soon le s = absurd (omega arith)
  pop_seen-Ends (suc fuel) flags a k w soon le s =
      let (x, m, (n, was, _)) = s in
      let f = next_flag flags in
      let e =
        step-pop_stamp b N f q w (n % N) _ _ (slot_index g i m n was.0) (slot-At g i m n refl) k in
      Ends-step g fuel flags q _ e (
        pop_ways _ _ fuel (later_flags flags) a k (snooze b k).0 w soon
          (omega (arith, later_flags-le flags))
          (Safe-step g patience i f a q _ far (λ _. omega arith) e s))

module _ {A : Type 0} {b : Build} {N L : ℕ} (g : Geometry b N L) where
  last-Ends :
      (fuel : ℕ) (flags : List Bool) (q : Queue A) (p : Point A) (r : Reply A)
      → step b N (next_flag flags) q p ≡ (q, done r)
      → 1 ≤ fuel
      → Ends g fuel flags q p
  last-Ends zero flags q p r e le = absurd (omega arith)
  last-Ends (suc fuel) flags q p r e le =
      Ends-step g fuel flags q p e (Ends-done g fuel (later_flags flags) q r)

  len_head-Ends :
      {h : ℕ} (xs : List A) {q : Queue A} (fuel : ℕ) (flags : List Bool) (w : ℕ)
      → Holds g h xs q
      → 5 ≤ fuel
      → Ends g fuel flags q (len_head w)
  unfolding step
  len_head-Ends xs zero flags w v le = absurd (omega arith)
  len_head-Ends xs {q} (suc fuel) flags w v le =
      Ends-step g fuel flags q _ refl
        (len_again-Ends g xs v fuel (later_flags flags) w q.head (omega arith))

module _ {A : Type 0} {b : Build} {N L : ℕ} (g : Geometry b N L) (patience : ℕ)
    (far : patience + 3 * N ≤ N * g.laps) (i : ℕ) {h : ℕ} (xs : List A) (q : Queue A) where
  -- From every point.
  point-Ends :
      (p : Point A) (a fuel : ℕ) (flags : List Bool)
      → Safe g i a q p
      → (uses p ≡ none → Holds g h xs q)
      → (relies p ≡ true → a + 1 < patience)
      → 3 * length flags + 12 ≤ fuel
      → Ends g fuel flags q p
  unfolding step
  point-Ends (push_tail c u k) a fuel flags s v soon le =
      push_tail-Ends g xs fuel flags c u k (v refl) (omega arith)
  point-Ends (push_stamp c u k w) a fuel flags s v soon le =
      push_seen-Ends g patience far i xs (v refl) fuel flags a c u k w (soon refl) le s
  point-Ends (push_claim c u k w) a fuel flags s v soon le =
      push_claim-Ends g patience far i xs (v refl) fuel flags a c u k w (omega (arith, soon refl))
        (omega arith) s
  point-Ends (push_write c u w) a fuel flags s v soon le =
      push_write-Ends g patience far i fuel flags a q c u w s (omega arith)
  point-Ends (push_publish c w) a fuel flags s v soon le =
      push_publish-Ends g patience far i fuel flags a q c w s (omega arith)
  point-Ends (full_head u k w) a fuel flags s v soon le =
      full_head-Ends g xs (v refl) fuel flags u k w (omega arith)
  point-Ends (ring_claim u k w) a fuel flags s v soon le =
      ring_claim-Ends g patience far i xs (v refl) fuel flags a u k w (omega (arith, soon refl))
        (omega arith) s
  point-Ends (ring_tail u w) a fuel flags s v soon le =
      ring_tail-Ends g patience far i fuel flags a q u w s (omega arith)
  point-Ends (ring_replace u w) a fuel flags s v soon le =
      ring_replace-Ends g patience far i fuel flags a q u w s (omega arith)
  point-Ends (ring_publish u w) a fuel flags s v soon le =
      ring_publish-Ends g patience far i fuel flags a q u w s (omega arith)
  point-Ends (pop_head k) a fuel flags s v soon le =
      pop_head-Ends g xs fuel flags k (v refl) (omega arith)
  point-Ends (pop_stamp k w) a fuel flags s v soon le =
      pop_seen-Ends g patience far i xs (v refl) fuel flags a k w (soon refl) le s
  point-Ends (pop_claim k w) a fuel flags s v soon le =
      pop_claim-Ends g patience far i xs (v refl) fuel flags a k w (omega (arith, soon refl))
        (omega arith) s
  point-Ends (pop_read w) a fuel flags s v soon le =
      pop_read-Ends g patience far i fuel flags a q w s (omega arith)
  point-Ends (pop_publish u w) a fuel flags s v soon le =
      pop_publish-Ends g patience far i fuel flags a q u w s (omega arith)
  point-Ends (pop_tail k w) a fuel flags s v soon le =
      pop_tail-Ends g xs (v refl) fuel flags k w (omega arith)
  point-Ends empty_head a fuel flags s v soon le =
      Gives-Ends g _ _ _ _ (is_empty_lem (v refl) fuel flags (omega arith))
  point-Ends (empty_tail w) a fuel flags s v soon le =
      last-Ends g fuel flags q _ _ refl (omega arith)
  point-Ends full_tail a fuel flags s v soon le =
      Gives-Ends g _ _ _ _ (is_full_lem (v refl) fuel flags (omega arith))
  point-Ends (full_check w) a fuel flags s v soon le =
      last-Ends g fuel flags q _ _ refl (omega arith)
  point-Ends len_tail a fuel flags s v soon le =
      Gives-Ends g _ _ _ _ (len_lem (v refl) fuel flags (omega arith))
  point-Ends (len_head w) a fuel flags s v soon le =
      len_head-Ends g xs fuel flags w (v refl) (omega arith)
  point-Ends (len_again w u) a fuel flags s v soon le =
      len_again-Ends g xs (v refl) fuel flags w u (omega arith)
  point-Ends (done r) a fuel flags s v soon le = Ends-done g fuel flags q r
  point-Ends fault a fuel flags (x, m, l) v soon le = absurd l

module _ {A : Type 0} {b : Build} {N L : ℕ} (g : Geometry b N L) where
  -- In every state that a new queue gets into by any interleaving of any number of threads: a thread at
  -- any point of any method returns within `3 * length flags + 12` accesses if the other threads make
  -- none meanwhile, whichever of its accesses fail spuriously. The conditions: no other thread is between
  -- its compare-exchange and its stamp store; while a thread works on a position that it has loaded, the
  -- threads make fewer than `patience` accesses, and these with three laps of the buffer are no more than
  -- the positions of the words; and this thread has at least two of these accesses left, if it works on
  -- one.
  pub returns_alone :
      (n patience : ℕ) (first : ℕ → Call A) (s : System A)
      → patience + 3 * N ≤ N * g.laps
      → Reach b N n patience L first s
      → (i : ℕ) → ((j : ℕ) → j ≢ i → uses (s.at j) ≡ none)
      → (relies (s.at i) ≡ true → s.age i + 1 < patience)
      → (fuel : ℕ) (flags : List Bool) → 3 * length flags + 12 ≤ fuel
      → (r : Reply A) × (q : Queue A) × (run b N fuel flags s.queue (s.at i) ≡ some (r, q))
  returns_alone n patience first s far r i others soon fuel flags le =
      let (x, inv) = Reach-Inv g n patience far r in
      point-Ends g patience far i (contents x) s.queue (s.at i) (s.age i) fuel flags
        (x, inv.memory, inv.threads i)
        (λ mine. Memory-Holds g inv.memory (
          no_owner g inv (λ j. elim (ℕ_discrete j i) [
            | yes e ↦ ap (λ k. uses (s.at k)) e ∙ mine
            | no ne ↦ others j ne
          ])))
        soon le
