-- ===== src/Solo/Push.antt =====
-- A push into a queue with room: `push` and `force_push` take the next ticket.
use nure_queue.Common.{
  ℕ, zero, suc, ◌+◌, ◌*◌, ◌%◌, ◌≤◌, ◌<◌, ◌≡◌, refl, ap, ap₂, ◌∙◌, Bool, true, false, List, [], ◌∷◌,
  ◌++◌, none, some, length, eq→==, Bool-cases, inl, inr, arith,
}
use nure_queue.Target.{Build, index_bits, wrapping_add}
use nure_queue.Lap.{index_of, next_pos}
use nure_queue.Lap.Geometry.{Geometry}
use nure_queue.Lap.Ticket.{position, add_one, index_of-position, next_pos-position}
use nure_queue.Backoff.{Backoff, spin}
use nure_queue.Queue.{Queue}
use nure_queue.Thread.{Closure, push_tail, push_stamp, push_claim, push_write}
use nure_queue.Thread.Step.{step, after_push_stamp}
use nure_queue.Thread.Step.Laws.{
  put_slot, put_slot_self, put_slot_ne, push_reply, step-push_stamp, step-push_write,
  step-push_publish,
}
use nure_queue.Solo.{next_flag, later_flags}
use nure_queue.Solo.Run.{enough, Gives, Gives-step, Gives-done, length-later_flags, later_flags-le}
use nure_queue.Solo.Holds.{Holds, after_push}

-- An exchange of the tail with the value that was loaded fails only spuriously.
module _ {ℓ} {A : Type ℓ} (b : Build) (N : ℕ) (q : Queue A) (c : Closure) (x : A)
    (k : Backoff) where
  claim_wins :
      step b N false q (push_claim c x k q.tail)
      ≡ (record q { tail = next_pos b N q.one_lap q.tail }, push_write c x q.tail)
  unfolding step
  claim_wins = rw (eq→== q.tail q.tail refl)

  claim_fails : step b N true q (push_claim c x k q.tail) ≡ (q, push_stamp c x (spin b k).0 q.tail)
  unfolding step
  claim_fails = rw (eq→== q.tail q.tail refl)

module _ {ℓ} {A : Type ℓ} {b : Build} {N L : ℕ} {g : Geometry b N L} {h : ℕ} {xs : List A}
    {q : Queue A} (v : Holds g h xs q) (c : Closure) (x : A) (room : length xs < N) where
  open v use {lap, head, tail, fits, full, free}

  abbrev ticket : ℕ
  ticket = h + length xs

  tail_index : index_of b q.one_lap q.tail ≡ ticket % N
  tail_index = ap₂ (index_of b) lap tail ∙ index_of-position g ticket

  -- The stamp of the next slot is its ticket.
  sees_room :
      (k : Backoff)
      → after_push_stamp b N q c x k q.tail (position g ticket) ≡ push_claim c x k q.tail
  unfolding after_push_stamp
  sees_room k = rw (eq→== q.tail (position g ticket) tail)

  claimed : Queue A
  claimed = record q { tail = next_pos b N q.one_lap q.tail }

  written : Queue A
  unfolding claimed
  written = put_slot claimed (ticket % N) (record { stamp = position g ticket; value = some x })

  published : Queue A
  unfolding written
  published =
      put_slot written (ticket % N)
        (record { stamp = wrapping_add (index_bits b) q.tail 1; value = some x })

  published-Holds : Holds g h (xs ++ (x ∷ [])) published
  unfolding published
  published-Holds =
      after_push v x published room refl refl
        (ap₂ (next_pos b N) lap tail ∙ next_pos-position g ticket)
        (put_slot_self written (ticket % N) _
          ∙ ap (λ n. some (record { stamp = n; value = some x })) stamp)
        (λ i ne. put_slot_ne written (ticket % N) _ i ne ∙ put_slot_ne claimed (ticket % N) _ i ne)
    where
      stamp : wrapping_add (index_bits b) q.tail 1 ≡ position g ticket + 1
      stamp = ap (λ n. wrapping_add (index_bits b) n 1) tail ∙ add_one g ticket

  -- After the exchange of the tail, no access waits for another thread.
  finish :
      (fuel : ℕ) (flags : List Bool)
      → 2 ≤ fuel
      → Gives g fuel flags claimed (push_write c x q.tail) (push_reply c) (xs ++ (x ∷ []))
  unfolding published
  finish zero flags h2 = absurd (omega arith)
  finish (suc zero) flags h2 = absurd (omega arith)
  finish (suc (suc fuel)) flags h2 =
      Gives-step g (suc fuel) flags _ _ _ _
        (step-push_write b N (next_flag flags) claimed q.tail (ticket % N) (position g ticket) none
          tail_index (free (length xs) (omega arith) room) c x)
        (Gives-step g fuel (later_flags flags) _ _ _ _
          (step-push_publish b N (next_flag (later_flags flags)) written q.tail (ticket % N)
            (position g ticket) (some x) tail_index (put_slot_self claimed (ticket % N) _) c)
          (Gives-done g fuel (later_flags (later_flags flags)) h _ _ _ published-Holds))

  -- From the load of the stamp on: the exchange is tried again after each spurious failure.
  try_claim :
      (fuel : ℕ) (flags : List Bool) (k : Backoff)
      → 3 * length flags + 6 ≤ fuel
      → Gives g fuel flags q (push_stamp c x k q.tail) (push_reply c) (xs ++ (x ∷ []))
  unfolding claimed
  try_claim zero flags k h2 = absurd (omega arith)
  try_claim (suc zero) flags k h2 = absurd (omega arith)
  try_claim (suc (suc fuel)) flags k h2 =
      Gives-step g (suc fuel) flags q _ _ _
        (step-push_stamp b N (next_flag flags) q q.tail (ticket % N) (position g ticket) none
            tail_index (free (length xs) (omega arith) room) c x k
          ∙ ap (λ p. (q, p)) (sees_room k))
        (elim (Bool-cases (next_flag (later_flags flags))) [
          | inl spurious ↦
              Gives-step g fuel (later_flags flags) q _ _ _
                (ap (λ f. step b N f q (push_claim c x k q.tail)) spurious
                  ∙ claim_fails b N q c x k)
                (try_claim fuel (later_flags (later_flags flags)) (spin b k).0 (
                  omega
                    (arith, later_flags-le flags, length-later_flags (later_flags flags) spurious)))
          | inr wins ↦
              Gives-step g fuel (later_flags flags) q _ _ _
                (ap (λ f. step b N f q (push_claim c x k q.tail)) wins ∙ claim_wins b N q c x k)
                (finish fuel (later_flags (later_flags flags)) (omega arith))
        ])

  -- The whole of `push_or_else`.
  pub push_room :
      (fuel : ℕ) (flags : List Bool) (k : Backoff)
      → enough flags ≤ fuel
      → Gives g fuel flags q (push_tail c x k) (push_reply c) (xs ++ (x ∷ []))
  unfolding step
  push_room zero flags k h2 = absurd (omega arith)
  push_room (suc fuel) flags k h2 =
      Gives-step g fuel flags q _ _ _ refl
        (try_claim fuel (later_flags flags) k (omega (arith, later_flags-le flags)))
