-- ===== src/System/Alone/Own.antt =====
-- A thread that has a slot to itself returns, whatever the other threads have done.
use nure_queue.Common.{
  ℕ, zero, suc, ◌+◌, ◌*◌, ◌%◌, ◌≤◌, ◌≡◌, refl, ap, ◌∙◌, Bool, List, some, arith,
}
use nure_queue.Target.{Build}
use nure_queue.Lap.Geometry.{Geometry}
use nure_queue.Queue.{Queue}
use nure_queue.Thread.{
  Closure, push_write, push_publish, ring_tail, ring_replace, ring_publish, pop_read, pop_publish,
}
use nure_queue.Thread.Step.{step}
use nure_queue.Thread.Step.Laws.{
  step-push_write, step-push_publish, step-ring_replace, step-ring_publish, step-pop_read,
  step-pop_publish,
}
use nure_queue.Solo.{next_flag, later_flags}
use nure_queue.System.Invariant.Moves.{slot_index, slot-At, Bounds-At}
use nure_queue.System.Invariant.Defs.{Stage, Ghost, At, Memory, stamp_of, content_of}
use nure_queue.System.Alone.{Ends, Ends-step, Ends-done, Safe, Safe-step}
use native.Mathlib.Nat.{add-mod_right}

module _ {A : Type 0} {b : Build} {N L : ℕ} (g : Geometry b N L) (i : ℕ) {x : Ghost A} {q : Queue A}
    (v : Memory g x q) where
  -- A slot whose value is known.
  pub with_value :
      (n : ℕ) {s : Stage} {old : A}
      → At g x n s
      → content_of N x.value s ≡ some old
      → q.buffer (n % N) ≡ some (record { stamp = stamp_of g s; value = some old })
  with_value n {s} here is =
      slot-At g i v n here ∙ ap (λ o. some (record { stamp = stamp_of g s; value = o })) is

module _ {A : Type 0} {b : Build} {N L : ℕ} (g : Geometry b N L) (patience : ℕ)
    (far : patience + 3 * N ≤ N * g.laps) (i : ℕ) where
  pub push_publish-Ends :
      (fuel : ℕ) (flags : List Bool) (a : ℕ) (q : Queue A) (c : Closure) (w : ℕ)
      → Safe g i a q (push_publish c w)
      → 1 ≤ fuel
      → Ends g fuel flags q (push_publish c w)
  push_publish-Ends zero flags a q c w s h = absurd (omega arith)
  push_publish-Ends (suc fuel) flags a q c w (x, v, (n, e, here, _)) h =
      Ends-step g fuel flags q (push_publish c w)
        (step-push_publish b N (next_flag flags) q w (n % N) _ _ (slot_index g i v n e)
          (slot-At g i v n here) c)
        (Ends-done g fuel (later_flags flags) _ _)

  pub push_write-Ends :
      (fuel : ℕ) (flags : List Bool) (a : ℕ) (q : Queue A) (c : Closure) (u : A) (w : ℕ)
      → Safe g i a q (push_write c u w)
      → 2 ≤ fuel
      → Ends g fuel flags q (push_write c u w)
  push_write-Ends zero flags a q c u w s h = absurd (omega arith)
  push_write-Ends (suc fuel) flags a q c u w s h =
      let (x, v, (n, e, here, _, _)) = s in
      let writes =
        step-push_write b N (next_flag flags) q w (n % N) _ _ (slot_index g i v n e)
          (slot-At g i v n here) c u in
      Ends-step g fuel flags q (push_write c u w) writes (
        push_publish-Ends fuel (later_flags flags) (a + 1) _ c w
          (Safe-step g patience i (next_flag flags) a q (push_write c u w) far (λ r. cc r) writes s)
          (omega arith))

  pub ring_publish-Ends :
      (fuel : ℕ) (flags : List Bool) (a : ℕ) (q : Queue A) (u : A) (w : ℕ)
      → Safe g i a q (ring_publish u w)
      → 1 ≤ fuel
      → Ends g fuel flags q (ring_publish u w)
  ring_publish-Ends zero flags a q u w s h = absurd (omega arith)
  ring_publish-Ends (suc fuel) flags a q u w (x, v, (n, e, here, _)) h =
      Ends-step g fuel flags q (ring_publish u w)
        (step-ring_publish b N (next_flag flags) q w (n % N) _ _
          (slot_index g i v (n + N) e ∙ add-mod_right n N) (slot-At g i v n here) u)
        (Ends-done g fuel (later_flags flags) _ _)

  pub ring_replace-Ends :
      (fuel : ℕ) (flags : List Bool) (a : ℕ) (q : Queue A) (u : A) (w : ℕ)
      → Safe g i a q (ring_replace u w)
      → 2 ≤ fuel
      → Ends g fuel flags q (ring_replace u w)
  ring_replace-Ends zero flags a q u w s h = absurd (omega arith)
  ring_replace-Ends (suc fuel) flags a q u w s h =
      let (x, v, (n, e, here, _, _)) = s in
      let (old, is) = v.known n (omega (arith, Bounds-At g i v n here)) in
      let replaces =
        step-ring_replace b N (next_flag flags) q w (n % N) _ old
          (slot_index g i v (n + N) e ∙ add-mod_right n N) (with_value g i v n here is) u in
      Ends-step g fuel flags q (ring_replace u w) replaces (
        ring_publish-Ends fuel (later_flags flags) (a + 1) _ old w
          (Safe-step g patience i (next_flag flags) a q (ring_replace u w) far (λ r. cc r) replaces
            s)
          (omega arith))

  pub ring_tail-Ends :
      (fuel : ℕ) (flags : List Bool) (a : ℕ) (q : Queue A) (u : A) (w : ℕ)
      → Safe g i a q (ring_tail u w)
      → 3 ≤ fuel
      → Ends g fuel flags q (ring_tail u w)
  unfolding step
  ring_tail-Ends zero flags a q u w s h = absurd (omega arith)
  ring_tail-Ends (suc fuel) flags a q u w s h = Ends-step g fuel flags q (ring_tail u w) refl (
      ring_replace-Ends fuel (later_flags flags) (a + 1) _ u w
        (Safe-step g patience i (next_flag flags) a q (ring_tail u w) far (λ r. cc r) refl s)
        (omega arith))

  pub pop_publish-Ends :
      (fuel : ℕ) (flags : List Bool) (a : ℕ) (q : Queue A) (u : A) (w : ℕ)
      → Safe g i a q (pop_publish u w)
      → 1 ≤ fuel
      → Ends g fuel flags q (pop_publish u w)
  pop_publish-Ends zero flags a q u w s h = absurd (omega arith)
  pop_publish-Ends (suc fuel) flags a q u w (x, v, (n, e, here, _)) h =
      Ends-step g fuel flags q (pop_publish u w)
        (step-pop_publish b N (next_flag flags) q w (n % N) _ _ (slot_index g i v n e)
          (slot-At g i v n here) u)
        (Ends-done g fuel (later_flags flags) _ _)

  pub pop_read-Ends :
      (fuel : ℕ) (flags : List Bool) (a : ℕ) (q : Queue A) (w : ℕ)
      → Safe g i a q (pop_read w)
      → 2 ≤ fuel
      → Ends g fuel flags q (pop_read w)
  pop_read-Ends zero flags a q w s h = absurd (omega arith)
  pop_read-Ends (suc fuel) flags a q w s h =
      let (x, v, (n, e, here, _)) = s in
      let (old, is) = v.known n (omega (arith, Bounds-At g i v n here, v.ordered)) in
      let reads =
        step-pop_read b N (next_flag flags) q w (n % N) _ old (slot_index g i v n e)
          (with_value g i v n here is) in
      Ends-step g fuel flags q (pop_read w) reads (
        pop_publish-Ends fuel (later_flags flags) (a + 1) _ old w
          (Safe-step g patience i (next_flag flags) a q (pop_read w) far (λ r. cc r) reads s)
          (omega arith))
