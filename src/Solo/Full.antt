-- ===== src/Solo/Full.antt =====
-- A push into a full queue: `push` gives the value back, `force_push` takes the place of the oldest.
use nure_queue.Common.{
  ℕ, zero, suc, ◌+◌, ◌%◌, ◌≤◌, ◌≡◌, ◌≢◌, refl, sym, ap, ap₂, ◌∙◌, Bool, true, false, List, [], ◌∷◌,
  ◌++◌, none, some, length, eq→==, ne→not-==, Bool-cases, inl, inr, arith,
}
use nure_queue.Target.{Build, index_bits, wrapping_add, wrapping_sub}
use nure_queue.Lap.{index_of, next_pos}
use nure_queue.Lap.Geometry.{Geometry}
use nure_queue.Lap.Ticket.{
  position, add_one, add_lap, add_lap_full, sub_lap, index_of-position, next_pos-position,
  position-ne-full,
}
use nure_queue.Backoff.{Backoff, spin}
use nure_queue.Queue.{Queue}
use nure_queue.Thread.{
  Closure, when_full, ring, rejected, option, push_tail, full_head, ring_claim, ring_tail, done,
}
use nure_queue.Thread.Step.{step, after_push_stamp}
use nure_queue.Thread.Step.Laws.{
  put_slot, put_slot_self, put_slot_ne, step-push_stamp, step-ring_replace, step-ring_publish,
}
use nure_queue.Solo.{next_flag, later_flags}
use nure_queue.Solo.Run.{enough, Gives, Gives-step, Gives-done, length-later_flags, later_flags-le}
use nure_queue.Solo.Holds.{Holds, after_pop, after_push}
use native.Mathlib.Nat.{add-zero, add-mod_right}

module _ {ℓ} {A : Type ℓ} (b : Build) (N : ℕ) (q : Queue A) (x : A) (k : Backoff) where
  head_rejects :
      (f : Bool)
      → wrapping_add (index_bits b) q.head q.one_lap ≡ q.tail
      → step b N f q (full_head x k q.tail) ≡ (q, done (rejected x))
  unfolding step
  head_rejects f e = rw (eq→== _ _ e)

  ring_wins :
      q.head ≡ wrapping_sub (index_bits b) q.tail q.one_lap
      → step b N false q (ring_claim x k q.tail) ≡ (
        record q { head = wrapping_sub (index_bits b) (next_pos b N q.one_lap q.tail) q.one_lap },
        ring_tail x q.tail,
      )
  unfolding step
  ring_wins e = rw (eq→== _ _ e)

  ring_fails :
      q.head ≡ wrapping_sub (index_bits b) q.tail q.one_lap
      → step b N true q (ring_claim x k q.tail) ≡ (q, push_tail ring x (spin b k).0)
  unfolding step
  ring_fails e = rw (eq→== _ _ e)

module _ {ℓ} {A : Type ℓ} {b : Build} {N L : ℕ} {g : Geometry b N L} {h : ℕ} {y : A} {ys : List A}
    {q : Queue A} (v : Holds g h (y ∷ ys) q) (x : A) (at_capacity : suc (length ys) ≡ N) where
  open v use {lap, head, tail, fits, full, free}

  -- The tail is one lap ahead of the head.
  tail_lap : q.tail ≡ position g (h + N)
  tail_lap = tail ∙ ap (λ n. position g (h + n)) at_capacity

  tail_index : index_of b q.one_lap q.tail ≡ h % N
  tail_index = ap₂ (index_of b) lap tail_lap ∙ index_of-position g (h + N) ∙ add-mod_right h N

  oldest : q.buffer (h % N) ≡ some (record { stamp = position g h + 1; value = some y })
  oldest =
      ap (λ n. q.buffer (n % N)) (sym (add-zero h))
      ∙ full 0 y refl
      ∙ ap (λ n. some (record { stamp = position g n + 1; value = some y })) (add-zero h)

  -- The next slot holds the oldest value, whose stamp is neither the tail nor free.
  sees_full :
      (c : Closure) (k : Backoff)
      → after_push_stamp b N q c x k q.tail (position g h + 1)
        ≡ elim c [ when_full ↦ full_head x k q.tail | ring ↦ ring_claim x k q.tail ]
  unfolding after_push_stamp
  sees_full c k = rw (
    ne→not-== q.tail (position g h + 1)
        (λ e. position-ne-full g (h + N) h (add-mod_right h N) (sym tail_lap ∙ e)),
    eq→== (wrapping_add (index_bits b) (position g h + 1) q.one_lap)
        (wrapping_add (index_bits b) q.tail 1) one_behind,
  )
    where
      one_behind :
          wrapping_add (index_bits b) (position g h + 1) q.one_lap
          ≡ wrapping_add (index_bits b) q.tail 1
      one_behind =
          ap (wrapping_add (index_bits b) (position g h + 1)) lap
          ∙ add_lap_full g h
          ∙ sym (ap (λ n. wrapping_add (index_bits b) n 1) tail_lap ∙ add_one g (h + N))

  head_lap : wrapping_add (index_bits b) q.head q.one_lap ≡ q.tail
  head_lap = ap₂ (wrapping_add (index_bits b)) head lap ∙ add_lap g h ∙ sym tail_lap

  -- The whole of `push`.
  pub push_full :
      (fuel : ℕ) (flags : List Bool) (k : Backoff)
      → enough flags ≤ fuel
      → Gives g fuel flags q (push_tail when_full x k) (rejected x) (y ∷ ys)
  unfolding step
  push_full zero flags k h2 = absurd (omega arith)
  push_full (suc zero) flags k h2 = absurd (omega arith)
  push_full (suc (suc zero)) flags k h2 = absurd (omega arith)
  push_full (suc (suc (suc fuel))) flags k h2 = Gives-step g (suc (suc fuel)) flags q _ _ _ refl (
      Gives-step g (suc fuel) (later_flags flags) q _ _ _
        (step-push_stamp b N (next_flag (later_flags flags)) q q.tail (h % N) (position g h + 1)
            (some y) tail_index oldest when_full x k
          ∙ ap (λ p. (q, p)) (sees_full when_full k))
        (Gives-step g fuel (later_flags (later_flags flags)) q _ _ _
          (head_rejects b N q x k (next_flag (later_flags (later_flags flags))) head_lap)
          (Gives-done g fuel (later_flags (later_flags (later_flags flags))) h q _ _ v)))

  behind_tail : q.head ≡ wrapping_sub (index_bits b) q.tail q.one_lap
  behind_tail = head ∙ sym (ap₂ (wrapping_sub (index_bits b)) tail_lap lap ∙ sub_lap g h)

  head_moved : Queue A
  head_moved = record q {
    head = wrapping_sub (index_bits b) (next_pos b N q.one_lap q.tail) q.one_lap;
  }

  tail_moved : Queue A
  unfolding head_moved
  tail_moved = record head_moved { tail = next_pos b N q.one_lap q.tail }

  replaced : Queue A
  unfolding tail_moved
  replaced = put_slot tail_moved (h % N) (record { stamp = position g h + 1; value = some x })

  published : Queue A
  unfolding replaced
  published =
      put_slot replaced (h % N)
        (record { stamp = wrapping_add (index_bits b) q.tail 1; value = some x })

  -- The queue without its oldest value, before the new one is in.
  without_oldest : Queue A
  unfolding head_moved
  without_oldest =
      put_slot (record head_moved { tail = q.tail }) (h % N)
        (record { stamp = position g (h + N); value = none })

  next_tail : next_pos b N q.one_lap q.tail ≡ position g (suc (h + N))
  next_tail = ap₂ (next_pos b N) lap tail_lap ∙ next_pos-position g (h + N)

  without_oldest-Holds : Holds g (suc h) ys without_oldest
  unfolding without_oldest
  without_oldest-Holds =
      after_pop v without_oldest
        (λ i ne. put_slot_ne (record head_moved { tail = q.tail }) (h % N) _ i ne) refl
        (ap₂ (wrapping_sub (index_bits b))
            (next_tail ∙ ap (position g) {x = suc (h + N)} {y = suc h + N} (omega arith)) lap
          ∙ sub_lap g (suc h))
        refl (put_slot_self (record head_moved { tail = q.tail }) (h % N) _)

  published-Holds : Holds g (suc h) (ys ++ (x ∷ [])) published
  unfolding published without_oldest
  published-Holds =
      after_push without_oldest-Holds x published (omega arith) refl refl
        (next_tail ∙ ap (position g) (omega arith))
        (ap published.buffer slot
          ∙ put_slot_self replaced (h % N) _
          ∙ ap (λ n. some (record { stamp = n; value = some x })) stamp)
        (λ i ne.
          let other : i ≢ h % N = λ e. ne (e ∙ sym slot) in
          put_slot_ne replaced (h % N) _ i other
          ∙ put_slot_ne tail_moved (h % N) _ i other
          ∙ sym (put_slot_ne (record head_moved { tail = q.tail }) (h % N) _ i other))
    where
      ticket : suc h + length ys ≡ h + N
      ticket = omega arith

      slot : (suc h + length ys) % N ≡ h % N
      slot = ap (λ n. n % N) ticket ∙ add-mod_right h N

      stamp : wrapping_add (index_bits b) q.tail 1 ≡ position g (suc h + length ys) + 1
      stamp =
          ap (λ n. wrapping_add (index_bits b) n 1) tail_lap
          ∙ add_one g (h + N)
          ∙ ap (λ n. position g n + 1) (sym ticket)

  finish :
      (fuel : ℕ) (flags : List Bool)
      → 3 ≤ fuel
      → Gives g fuel flags head_moved (ring_tail x q.tail) (option (some y)) (ys ++ (x ∷ []))
  unfolding published step
  finish zero flags h2 = absurd (omega arith)
  finish (suc zero) flags h2 = absurd (omega arith)
  finish (suc (suc zero)) flags h2 = absurd (omega arith)
  finish (suc (suc (suc fuel))) flags h2 =
      Gives-step g (suc (suc fuel)) flags head_moved _ {q' = tail_moved} _ _ refl (
        Gives-step g (suc fuel) (later_flags flags) tail_moved _ _ _
          (step-ring_replace b N (next_flag (later_flags flags)) tail_moved q.tail (h % N)
            (position g h + 1) y tail_index oldest x)
          (Gives-step g fuel (later_flags (later_flags flags)) replaced _ _ _
            (step-ring_publish b N (next_flag (later_flags (later_flags flags))) replaced q.tail
              (h % N) (position g h + 1) (some x) tail_index (put_slot_self tail_moved (h % N) _) y)
            (Gives-done g fuel (later_flags (later_flags (later_flags flags))) (suc h) _ _ _
              published-Holds)))

  -- The whole of `force_push`: from the load of the tail again after each spurious failure.
  pub force_push_full :
      (fuel : ℕ) (flags : List Bool) (k : Backoff)
      → enough flags ≤ fuel
      → Gives g fuel flags q (push_tail ring x k) (option (some y)) (ys ++ (x ∷ []))
  unfolding step head_moved
  force_push_full zero flags k h2 = absurd (omega arith)
  force_push_full (suc zero) flags k h2 = absurd (omega arith)
  force_push_full (suc (suc zero)) flags k h2 = absurd (omega arith)
  force_push_full (suc (suc (suc fuel))) flags k h2 =
      let flags1 = later_flags flags in
      let flags2 = later_flags flags1 in
      Gives-step g (suc (suc fuel)) flags q _ _ _ refl (
        Gives-step g (suc fuel) flags1 q _ _ _
          (step-push_stamp b N (next_flag flags1) q q.tail (h % N) (position g h + 1) (some y)
              tail_index oldest ring x k
            ∙ ap (λ p. (q, p)) (sees_full ring k))
          (elim (Bool-cases (next_flag flags2)) [
            | inl spurious ↦
                Gives-step g fuel flags2 q _ _ _
                  (ap (λ f. step b N f q (ring_claim x k q.tail)) spurious
                    ∙ ring_fails b N q x k behind_tail)
                  (force_push_full fuel (later_flags flags2) (spin b k).0 (
                    omega (
                      arith,
                      later_flags-le flags,
                      later_flags-le flags1,
                      length-later_flags flags2 spurious,
                    )))
            | inr wins ↦
                Gives-step g fuel flags2 q _ _ _
                  (ap (λ f. step b N f q (ring_claim x k q.tail)) wins
                    ∙ ring_wins b N q x k behind_tail)
                  (finish fuel (later_flags flags2) (omega arith))
          ]))
