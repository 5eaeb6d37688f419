-- ===== src/System/Alone/Turn.antt =====
-- A thread that has loaded a position and has no slot to itself, in a queue where no other thread has one:
-- its exchange succeeds and it ends, or it comes back to the head of its loop.
use nure_queue.Common.{
  ℕ, zero, suc, ◌+◌, ◌*◌, ◌≤◌, ◌<◌, ◌≡◌, refl, Bool, true, false, ◌&&◌, not, List, length, ◌==◌,
  if◌then◌else◌, Bool-cases, inl, inr, arith,
}
use nure_queue.Target.{Build, index_bits, wrapping_sub}
use nure_queue.Lap.{next_pos}
use nure_queue.Lap.Geometry.{Geometry}
use nure_queue.Backoff.{Backoff, spin}
use nure_queue.Queue.{Queue}
use nure_queue.Thread.{
  Closure, when_full, ring, Point, push_tail, push_stamp, push_claim, push_write, full_head,
  ring_claim, ring_tail, pop_stamp, pop_claim, pop_read, pop_tail, len_again,
}
use nure_queue.Thread.Step.{step}
use nure_queue.Solo.{next_flag, later_flags}
use nure_queue.Solo.Run.{later_flags-le}
use nure_queue.Solo.Holds.{Holds}
use nure_queue.Solo.Observe.{len_lem}
use nure_queue.System.Alone.{Ends, Ends-step, Ends-done, Gives-Ends, Safe, Safe-step}
use nure_queue.System.Alone.Own.{push_write-Ends, ring_tail-Ends, pop_read-Ends}
use nure_queue.System.Alone.Head.{push_tail-Ends, pop_head-Ends, push_stamp-Ends, pop_stamp-Ends}

-- What an exchange comes to, by its test.
module _ {A : Type 0} (b : Build) (N : ℕ) (f : Bool) (q : Queue A) (k : Backoff) (w : ℕ) where
  push_claim-eq :
      (t : Bool) (c : Closure) (u : A)
      → (q.tail == w && not f) ≡ t
      → step b N f q (push_claim c u k w) ≡ (
          if t
          then (record q { tail = next_pos b N q.one_lap w }, push_write c u w)
          else (q, push_stamp c u (spin b k).0 q.tail))
  unfolding step
  push_claim-eq t c u e = rw e

  ring_claim-eq :
      (t : Bool) (u : A)
      → (q.head == wrapping_sub (index_bits b) w q.one_lap && not f) ≡ t
      → step b N f q (ring_claim u k w) ≡ (
          if t
          then (
            record q { head = wrapping_sub (index_bits b) (next_pos b N q.one_lap w) q.one_lap },
            ring_tail u w,
          )
          else (q, push_tail ring u (spin b k).0))
  unfolding step
  ring_claim-eq t u e = rw e

  pop_claim-eq :
      (t : Bool)
      → (q.head == w && not f) ≡ t
      → step b N f q (pop_claim k w) ≡ (
          if t
          then (record q { head = next_pos b N q.one_lap w }, pop_read w)
          else (q, pop_stamp (spin b k).0 q.head))
  unfolding step
  pop_claim-eq t e = rw e

module _ {A : Type 0} {b : Build} {N L : ℕ} (g : Geometry b N L) (patience : ℕ)
    (far : patience + 3 * N ≤ N * g.laps) (i : ℕ) {h : ℕ} (xs : List A) {q : Queue A}
    (v : Holds g h xs q) where
  pub push_claim-Ends :
      (fuel : ℕ) (flags : List Bool) (a : ℕ) (c : Closure) (u : A) (k : Backoff) (w : ℕ)
      → a < patience
      → 3 * length flags + 11 ≤ fuel
      → Safe g i a q (push_claim c u k w)
      → Ends g fuel flags q (push_claim c u k w)
  push_claim-Ends zero flags a c u k w soon le s = absurd (omega arith)
  push_claim-Ends (suc fuel) flags a c u k w soon le s =
      let f = next_flag flags in
      elim (Bool-cases (q.tail == w && not f)) [
        | inl wins ↦
            let e = push_claim-eq b N f q k w true c u wins in
            Ends-step g fuel flags q _ e (
              push_write-Ends g patience far i fuel (later_flags flags) (a + 1) _ c u w
                (Safe-step g patience i f a q _ far (λ _. soon) e s) (omega arith))
        | inr fails ↦ Ends-step g fuel flags q _ (push_claim-eq b N f q k w false c u fails) (
            push_stamp-Ends g xs fuel (later_flags flags) c u (spin b k).0 v
              (omega (arith, later_flags-le flags)))
      ]

  pub ring_claim-Ends :
      (fuel : ℕ) (flags : List Bool) (a : ℕ) (u : A) (k : Backoff) (w : ℕ)
      → a < patience
      → 3 * length flags + 11 ≤ fuel
      → Safe g i a q (ring_claim u k w)
      → Ends g fuel flags q (ring_claim u k w)
  ring_claim-Ends zero flags a u k w soon le s = absurd (omega arith)
  ring_claim-Ends (suc fuel) flags a u k w soon le s =
      let f = next_flag flags in
      elim (Bool-cases (q.head == wrapping_sub (index_bits b) w q.one_lap && not f)) [
        | inl wins ↦
            let e = ring_claim-eq b N f q k w true u wins in
            Ends-step g fuel flags q _ e (
              ring_tail-Ends g patience far i fuel (later_flags flags) (a + 1) _ u w
                (Safe-step g patience i f a q _ far (λ _. soon) e s) (omega arith))
        | inr fails ↦ Ends-step g fuel flags q _ (ring_claim-eq b N f q k w false u fails) (
            push_tail-Ends g xs fuel (later_flags flags) ring u (spin b k).0 v
              (omega (arith, later_flags-le flags)))
      ]

  pub pop_claim-Ends :
      (fuel : ℕ) (flags : List Bool) (a : ℕ) (k : Backoff) (w : ℕ)
      → a < patience
      → 3 * length flags + 11 ≤ fuel
      → Safe g i a q (pop_claim k w)
      → Ends g fuel flags q (pop_claim k w)
  pop_claim-Ends zero flags a k w soon le s = absurd (omega arith)
  pop_claim-Ends (suc fuel) flags a k w soon le s =
      let f = next_flag flags in
      elim (Bool-cases (q.head == w && not f)) [
        | inl wins ↦
            let e = pop_claim-eq b N f q k w true wins in
            Ends-step g fuel flags q _ e (
              pop_read-Ends g patience far i fuel (later_flags flags) (a + 1) _ w
                (Safe-step g patience i f a q _ far (λ _. soon) e s) (omega arith))
        | inr fails ↦ Ends-step g fuel flags q _ (pop_claim-eq b N f q k w false fails) (
            pop_stamp-Ends g xs fuel (later_flags flags) (spin b k).0 v
              (omega (arith, later_flags-le flags)))
      ]

module _ {A : Type 0} {b : Build} {N L : ℕ} (g : Geometry b N L) {h : ℕ} (xs : List A) {q : Queue A}
    (v : Holds g h xs q) where
  if_Ends :
      (fuel : ℕ) (flags : List Bool) (t : Bool) (p p' : Point A)
      → Ends g fuel flags q p
      → Ends g fuel flags q p'
      → Ends g fuel flags q (if t then p else p')
  if_Ends fuel flags true p p' one two = one
  if_Ends fuel flags false p p' one two = two

  pub full_head-Ends :
      (fuel : ℕ) (flags : List Bool) (u : A) (k : Backoff) (w : ℕ)
      → 3 * length flags + 11 ≤ fuel
      → Ends g fuel flags q (full_head u k w)
  unfolding step
  full_head-Ends zero flags u k w le = absurd (omega arith)
  full_head-Ends (suc fuel) flags u k w le = Ends-step g fuel flags q _ refl (
      if_Ends fuel (later_flags flags) _ _ _ (Ends-done g fuel (later_flags flags) q _) (
        push_tail-Ends g xs fuel (later_flags flags) when_full u (spin b k).0 v
          (omega (arith, later_flags-le flags))))

  pub pop_tail-Ends :
      (fuel : ℕ) (flags : List Bool) (k : Backoff) (w : ℕ)
      → 3 * length flags + 11 ≤ fuel
      → Ends g fuel flags q (pop_tail k w)
  unfolding step
  pop_tail-Ends zero flags k w le = absurd (omega arith)
  pop_tail-Ends (suc fuel) flags k w le = Ends-step g fuel flags q _ refl (
      if_Ends fuel (later_flags flags) _ _ _ (Ends-done g fuel (later_flags flags) q _) (
        pop_head-Ends g xs fuel (later_flags flags) (spin b k).0 v
          (omega (arith, later_flags-le flags))))

  pub len_again-Ends :
      (fuel : ℕ) (flags : List Bool) (w head : ℕ)
      → 4 ≤ fuel
      → Ends g fuel flags q (len_again w head)
  unfolding step
  len_again-Ends zero flags w head le = absurd (omega arith)
  len_again-Ends (suc fuel) flags w head le = Ends-step g fuel flags q _ refl (
      if_Ends fuel (later_flags flags) _ _ _ (Ends-done g fuel (later_flags flags) q _)
        (Gives-Ends g _ _ _ _ (len_lem v fuel (later_flags flags) (omega arith))))
