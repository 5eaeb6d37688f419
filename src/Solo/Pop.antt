-- ===== src/Solo/Pop.antt =====
-- A pop: from a queue with a value, which it takes out, and from an empty queue.
use nure_queue.Common.{
  ℕ, zero, suc, ◌+◌, ◌*◌, ◌%◌, ◌≤◌, ◌≡◌, ◌≢◌, refl, sym, ap, ap₂, ◌∙◌, Bool, true, false, List, [],
  ◌∷◌, none, some, length, eq→==, ne→not-==, Bool-cases, inl, inr, arith,
}
use nure_queue.Target.{Build, index_bits, wrapping_add}
use nure_queue.Lap.{index_of, next_pos}
use nure_queue.Lap.Geometry.{Geometry}
use nure_queue.Lap.Ticket.{position, add_one, add_lap, index_of-position, next_pos-position}
use nure_queue.Backoff.{Backoff, spin}
use nure_queue.Queue.{Queue}
use nure_queue.Thread.{option, pop_head, pop_stamp, pop_claim, pop_read, pop_tail, done}
use nure_queue.Thread.Step.{step, after_pop_stamp}
use nure_queue.Thread.Step.Laws.{
  put_slot, put_slot_self, put_slot_ne, step-pop_stamp, step-pop_read, step-pop_publish,
}
use nure_queue.Solo.{next_flag, later_flags}
use nure_queue.Solo.Run.{enough, Gives, Gives-step, Gives-done, length-later_flags, later_flags-le}
use nure_queue.Solo.Holds.{Holds, after_pop}
use native.Mathlib.Nat.{add-zero}

module _ {ℓ} {A : Type ℓ} (b : Build) (N : ℕ) (q : Queue A) (k : Backoff) where
  pop_claim_wins :
      step b N false q (pop_claim k q.head)
      ≡ (record q { head = next_pos b N q.one_lap q.head }, pop_read q.head)
  unfolding step
  pop_claim_wins = rw (eq→== q.head q.head refl)

  pop_claim_fails : step b N true q (pop_claim k q.head) ≡ (q, pop_stamp (spin b k).0 q.head)
  unfolding step
  pop_claim_fails = rw (eq→== q.head q.head refl)

  pop_sees_empty :
      (f : Bool) → q.tail ≡ q.head → step b N f q (pop_tail k q.head) ≡ (q, done (option none))
  unfolding step
  pop_sees_empty f e = rw (eq→== q.tail q.head e)

module _ {ℓ} {A : Type ℓ} {b : Build} {N L : ℕ} {g : Geometry b N L} {h : ℕ} {x : A} {xs : List A}
    {q : Queue A} (v : Holds g h (x ∷ xs) q) where
  open v use {lap, head, tail, fits, full, free}

  head_index : index_of b q.one_lap q.head ≡ h % N
  head_index = ap₂ (index_of b) lap head ∙ index_of-position g h

  oldest : q.buffer (h % N) ≡ some (record { stamp = position g h + 1; value = some x })
  oldest =
      ap (λ n. q.buffer (n % N)) (sym (add-zero h))
      ∙ full 0 x refl
      ∙ ap (λ n. some (record { stamp = position g n + 1; value = some x })) (add-zero h)

  sees_value :
      (k : Backoff) → after_pop_stamp {A = A} b N k q.head (position g h + 1) ≡ pop_claim k q.head
  unfolding after_pop_stamp
  sees_value k = rw (
      eq→== (wrapping_add (index_bits b) q.head 1) (position g h + 1)
        (ap (λ n. wrapping_add (index_bits b) n 1) head ∙ add_one g h))

  claimed : Queue A
  claimed = record q { head = next_pos b N q.one_lap q.head }

  emptied : Queue A
  unfolding claimed
  emptied = put_slot claimed (h % N) (record { stamp = position g h + 1; value = none })

  released : Queue A
  unfolding emptied
  released =
      put_slot emptied (h % N)
        (record { stamp = wrapping_add (index_bits b) q.head q.one_lap; value = none })

  released-Holds : Holds g (suc h) xs released
  unfolding released
  released-Holds =
      after_pop v released
        (λ i ne. put_slot_ne emptied (h % N) _ i ne ∙ put_slot_ne claimed (h % N) _ i ne) refl
        (ap₂ (next_pos b N) lap head ∙ next_pos-position g h) refl
        (put_slot_self emptied (h % N) _
          ∙ ap (λ n. some (record { stamp = n; value = none })) stamp)
    where
      stamp : wrapping_add (index_bits b) q.head q.one_lap ≡ position g (h + N)
      stamp = ap₂ (wrapping_add (index_bits b)) head lap ∙ add_lap g h

  finish :
      (fuel : ℕ) (flags : List Bool)
      → 2 ≤ fuel
      → Gives g fuel flags claimed (pop_read q.head) (option (some x)) xs
  unfolding released
  finish zero flags h2 = absurd (omega arith)
  finish (suc zero) flags h2 = absurd (omega arith)
  finish (suc (suc fuel)) flags h2 =
      Gives-step g (suc fuel) flags claimed _ _ _
        (step-pop_read b N (next_flag flags) claimed q.head (h % N) (position g h + 1) x head_index
          oldest)
        (Gives-step g fuel (later_flags flags) emptied _ _ _
          (step-pop_publish b N (next_flag (later_flags flags)) emptied q.head (h % N)
            (position g h + 1) none head_index (put_slot_self claimed (h % N) _) x)
          (Gives-done g fuel (later_flags (later_flags flags)) (suc h) _ _ _ released-Holds))

  -- From the load of the stamp on: the exchange is tried again after each spurious failure.
  try_claim :
      (fuel : ℕ) (flags : List Bool) (k : Backoff)
      → 3 * length flags + 6 ≤ fuel
      → Gives g fuel flags q (pop_stamp k q.head) (option (some x)) xs
  unfolding claimed
  try_claim zero flags k h2 = absurd (omega arith)
  try_claim (suc zero) flags k h2 = absurd (omega arith)
  try_claim (suc (suc fuel)) flags k h2 =
      Gives-step g (suc fuel) flags q _ _ _
        (step-pop_stamp b N (next_flag flags) q q.head (h % N) (position g h + 1) (some x)
            head_index oldest k
          ∙ ap (λ p. (q, p)) (sees_value k))
        (elim (Bool-cases (next_flag (later_flags flags))) [
          | inl spurious ↦
              Gives-step g fuel (later_flags flags) q _ _ _
                (ap (λ f. step b N f q (pop_claim k q.head)) spurious ∙ pop_claim_fails b N q k)
                (try_claim fuel (later_flags (later_flags flags)) (spin b k).0 (
                  omega
                    (arith, later_flags-le flags, length-later_flags (later_flags flags) spurious)))
          | inr wins ↦
              Gives-step g fuel (later_flags flags) q _ _ _
                (ap (λ f. step b N f q (pop_claim k q.head)) wins ∙ pop_claim_wins b N q k)
                (finish fuel (later_flags (later_flags flags)) (omega arith))
        ])

  -- The whole of `pop`, where there is a value.
  pub pop_value :
      (fuel : ℕ) (flags : List Bool) (k : Backoff)
      → enough flags ≤ fuel
      → Gives g fuel flags q (pop_head k) (option (some x)) xs
  unfolding step
  pop_value zero flags k h2 = absurd (omega arith)
  pop_value (suc fuel) flags k h2 =
      Gives-step g fuel flags q _ _ _ refl
        (try_claim fuel (later_flags flags) k (omega (arith, later_flags-le flags)))

module _ {ℓ} {A : Type ℓ} {b : Build} {N L : ℕ} {g : Geometry b N L} {h : ℕ} {q : Queue A}
    (v : Holds g h [] q) where
  open v use {lap, head, tail, fits, full, free}

  -- An empty slot is no full one, and its stamp is the head.
  sees_none :
      (k : Backoff) → after_pop_stamp {A = A} b N k q.head (position g (h + 0)) ≡ pop_tail k q.head
  unfolding after_pop_stamp
  sees_none k = rw (
    ne→not-== (wrapping_add (index_bits b) q.head 1) (position g (h + 0)) later,
    eq→== (position g (h + 0)) q.head (ap (position g) (add-zero h) ∙ sym head),
  )
    where
      later : wrapping_add (index_bits b) q.head 1 ≢ position g (h + 0)
      later e = omega (
        arith,
        ap (λ n. wrapping_add (index_bits b) n 1) head ∙ add_one g h,
        e,
        ap (position g) (add-zero h),
      )

  -- The whole of `pop`, where there is none.
  pub pop_none :
      (fuel : ℕ) (flags : List Bool) (k : Backoff)
      → enough flags ≤ fuel
      → Gives g fuel flags q (pop_head k) (option none) []
  unfolding step
  pop_none zero flags k h2 = absurd (omega arith)
  pop_none (suc zero) flags k h2 = absurd (omega arith)
  pop_none (suc (suc zero)) flags k h2 = absurd (omega arith)
  pop_none (suc (suc (suc fuel))) flags k h2 = Gives-step g (suc (suc fuel)) flags q _ _ _ refl (
      Gives-step g (suc fuel) (later_flags flags) q _ _ _
        (step-pop_stamp b N (next_flag (later_flags flags)) q q.head ((h + 0) % N)
            (position g (h + 0)) none index (free 0 (omega arith) g.cap_pos) k
          ∙ ap (λ p. (q, p)) (sees_none k))
        (Gives-step g fuel (later_flags (later_flags flags)) q _ _ _
          (pop_sees_empty b N q k (next_flag (later_flags (later_flags flags)))
            (tail ∙ ap (position g) (add-zero h) ∙ sym head))
          (Gives-done g fuel (later_flags (later_flags (later_flags flags))) h q _ _ v)))
    where
      index : index_of b q.one_lap q.head ≡ (h + 0) % N
      index = ap₂ (index_of b) lap head ∙ index_of-position g h ∙ ap (λ n. n % N) (sym (add-zero h))
