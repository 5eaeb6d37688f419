-- ===== src/System/Invariant/PushStamps.antt =====
-- The loads of `push_or_else` in a queue with other threads leave the invariant true.
use nure_queue.Atomic.{calling}
use nure_queue.System.Invariant.Defs.{call_of}
use nure_queue.Common.{
  ℕ, ◌+◌, ◌*◌, ◌%◌, ◌≤◌, ◌<◌, ◌≡◌, refl, sym, ap, ap₂, subst, ◌∙◌, inl, inr, Bool, ◌==◌, ==→eq,
  arith,
}
use nure_queue.Target.{Build, index_bits, wrapping_add}
use nure_queue.Lap.Geometry.{Geometry}
use nure_queue.Lap.Ticket.{position, slot-lt, add_one, add_lap, add_lap_full, position-ne-full}
use nure_queue.Backoff.{Backoff, snooze}
use nure_queue.Queue.{Queue}
use nure_queue.Thread.{
  Closure, when_full, ring, push_tail, push_stamp, push_claim, full_head, ring_claim,
}
use nure_queue.Thread.Step.{step, after_push_stamp}
use nure_queue.Thread.Step.Laws.{step-push_stamp}
use nure_queue.System.{next_age}
use nure_queue.System.Invariant.Defs.{
  Stage, empty, full, Ghost, ticket_of, stamp_of, SlotIs, Memory, At, Local,
}
use nure_queue.System.Invariant.Stamps.{
  near_position, sees_empty, sees_full, stamp_cases, ticket_near,
}
use nure_queue.Common.{none, inl, inr}
use nure_queue.System.Invariant.Moves.{Next, stay, if_here, slot_index, slot-At}
use native.Mathlib.Nat.{add-mod_right}

module _ {A : Type 0} {b : Build} {N L : ℕ} (g : Geometry b N L) (i : ℕ) (f : Bool) {x : Ghost A}
    {q : Queue A} (v : Memory g x q) (a : ℕ) (soon : a + 3 * N < N * g.laps) where
  -- The three ways on from a stamp.
  stamp_ahead :
      (n : ℕ) {tail : ℕ}
      → (tail ≡ position g n) × (n ≤ x.puts) × (x.puts ≤ n + a)
      → tail ≡ stamp_of g (x.stage (n % N))
      → n ≡ x.puts
      → At g x n (empty n)
  stamp_ahead n (e, le, near) same now =
      let s = v.slots (n % N) (slot-lt g n) in
      sees_empty g x.takes x.puts (x.stage (n % N)) v.ordered v.within (omega (arith, g.cap_pos))
        (s.index ∙ ap (λ m. m % N) now) s.bounds (sym (ap (position g) now) ∙ sym e ∙ same)
      ∙ ap empty (sym now)

  stamp_lap_back :
      (n : ℕ) {tail : ℕ}
      → (tail ≡ position g n) × (n ≤ x.puts) × (x.puts ≤ n + a)
      → wrapping_add (index_bits b) (stamp_of g (x.stage (n % N))) q.one_lap
        ≡ wrapping_add (index_bits b) tail 1
      → (m : ℕ) × (n ≡ m + N) × (m ≡ x.takes → At g x m (full m))
  stamp_lap_back n {tail} (e, le, near) same = elim (stamp_cases g s) [
    | inl word ↦ absurd (
        position-ne-full g (m + N) n (add-mod_right m N ∙ here.index)
          (sym (ap₂ (wrapping_add (index_bits b)) word v.lap ∙ add_lap g m) ∙ same ∙ tail_next))
    | inr past ↦
        let back : position g (m + N) + 1 ≡ position g n + 1 =
          sym (ap₂ (wrapping_add (index_bits b)) past v.lap ∙ add_lap_full g m)
          ∙ same
          ∙ tail_next in
        let is : m + N ≡ n =
          near_position g (m + N) n (omega (arith, bounds, v.within))
            (omega (arith, bounds, v.within)) (omega arith) in
        (
          m,
          sym is,
          λ first.
              ap x.stage here.index
              ∙ sees_full g x.takes x.puts s v.ordered v.within here.bounds first
                  (past ∙ ap (λ j. position g j + 1) first)
              ∙ ap full (sym first),
        )
  ]
    where
      s : Stage
      s = x.stage (n % N)

      m : ℕ
      m = ticket_of s

      here : SlotIs g x q (n % N)
      here = v.slots (n % N) (slot-lt g n)

      bounds : (x.takes ≤ m + N) × (m < x.takes + N + N)
      bounds = ticket_near g x.takes x.puts s v.ordered v.within here.bounds

      tail_next : wrapping_add (index_bits b) tail 1 ≡ position g n + 1
      tail_next = ap (λ w. wrapping_add (index_bits b) w 1) e ∙ add_one g n

  -- Behind a full slot, `push` looks at the head and `force_push` exchanges it.
  behind_full :
      (c : Closure) (w : A) (k : Backoff) (n : ℕ) {tail : ℕ}
      → (tail ≡ position g n) × (n ≤ x.puts) × (x.puts ≤ n + a)
      → x.status i ≡ calling (call_of c w)
      → wrapping_add (index_bits b) (stamp_of g (x.stage (n % N))) q.one_lap
        ≡ wrapping_add (index_bits b) tail 1
      → Local g x
          (next_age a (elim c [ when_full ↦ full_head w k tail | ring ↦ ring_claim w k tail ]))
          i
          (elim c [ when_full ↦ full_head w k tail | ring ↦ ring_claim w k tail ])
  behind_full when_full w k n was st e = (n, omega (arith, was), st)
  behind_full ring w k n was st e =
      let (m, is, first) = stamp_lap_back n was e in
      (m, (was.0 ∙ ap (position g) is, omega (arith, was), omega (arith, was)), first, st)

  pub safe-push_stamp :
      (c : Closure) (w : A) (k : Backoff) (tail : ℕ)
      → Local g x a i (push_stamp c w k tail)
      → Next g i a x none (step b N f q (push_stamp c w k tail))
  unfolding after_push_stamp
  safe-push_stamp c w k tail (n, was, st) =
      subst (Next g i a x _)
        (sym (
          step-push_stamp b N f q tail (n % N) _ _ (slot_index g i v n was.0) (slot-At g i v n refl)
            c w k))
        (stay g i a (after_push_stamp b N q c w k tail (stamp_of g (x.stage (n % N)))) v (
          if_here g i a x (tail == stamp_of g (x.stage (n % N))) (push_claim c w k tail) _
            (λ e. (n, omega (arith, was), stamp_ahead n was (==→eq _ _ e), st))
            (λ _.
              if_here g i a x _ _ (push_tail c w (snooze b k).0)
                (λ e. behind_full c w k n was st (==→eq _ _ e)) (λ _. st))))
