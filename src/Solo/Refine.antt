-- ===== src/Solo/Refine.antt =====
-- Every method, called by one thread while no other thread is in the queue, does what it does to the
-- bounded queue of the values held.
use nure_queue.Common.{
  ℕ, suc, ◌≤◌, ◌≡◌, Bool, some, List, [], ◌∷◌, length, lt→ltb, le→not-ltb, eq→==, ne→not-==, dec_lt,
  arith,
}
use nure_queue.Target.{Build}
use nure_queue.Lap.Geometry.{Geometry}
use nure_queue.Backoff.{fresh}
use nure_queue.Queue.{Queue}
use nure_queue.Thread.{Call, when_full, ring, entry}
use nure_queue.Fifo
use nure_queue.Solo.{call}
use nure_queue.Solo.Run.{enough, Gives}
use nure_queue.Solo.Holds.{Holds}
use nure_queue.Solo.Push.{push_room}
use nure_queue.Solo.Full.{push_full, force_push_full}
use nure_queue.Solo.Pop.{pop_value, pop_none}
use nure_queue.Solo.Observe.{is_empty_lem, is_full_lem, len_lem}

module _ {ℓ} {A : Type ℓ} {b : Build} {N L : ℕ} (g : Geometry b N L) where
  -- The reply and the values that the specification gives.
  abbrev Answers : ℕ → List Bool → Queue A → Call A → List A → Type ℓ
  Answers fuel flags q c xs =
      let (r, ys) = Fifo.answer N c xs in Gives g fuel flags q (entry c) r ys

  push-Answers :
      (fuel : ℕ) (flags : List Bool) (x : A) (xs : List A) {h : ℕ} {q : Queue A}
      → Holds g h xs q
      → enough flags ≤ fuel
      → Answers fuel flags q (Call.push x) xs
  unfolding Fifo.answer entry
  push-Answers fuel flags x [] v e =
      rw (lt→ltb 0 N g.cap_pos) (push_room v when_full x g.cap_pos fuel flags fresh e)
  push-Answers fuel flags x (y ∷ ys) v e = elim (dec_lt (suc (length ys)) N) [
    | yes room ↦
        rw (lt→ltb (suc (length ys)) N room) (push_room v when_full x room fuel flags fresh e)
    | no none_left ↦
        rw (le→not-ltb (suc (length ys)) N (omega arith))
          (push_full v x (omega (arith, v.fits)) fuel flags fresh e)
  ]

  force_push-Answers :
      (fuel : ℕ) (flags : List Bool) (x : A) (xs : List A) {h : ℕ} {q : Queue A}
      → Holds g h xs q
      → enough flags ≤ fuel
      → Answers fuel flags q (Call.force_push x) xs
  unfolding Fifo.answer entry
  force_push-Answers fuel flags x [] v e =
      rw (ne→not-== 0 N (omega (arith, g.cap_pos)))
        (push_room v ring x g.cap_pos fuel flags fresh e)
  force_push-Answers fuel flags x (y ∷ ys) v e = elim (dec_lt (suc (length ys)) N) [
    | yes room ↦
        rw (ne→not-== (suc (length ys)) N (omega arith))
          (push_room v ring x room fuel flags fresh e)
    | no none_left ↦
        let at_capacity : suc (length ys) ≡ N = omega (arith, v.fits) in
        rw (eq→== (suc (length ys)) N at_capacity)
          (force_push_full v x at_capacity fuel flags fresh e)
  ]

  pop-Answers :
      (fuel : ℕ) (flags : List Bool) (xs : List A) {h : ℕ} {q : Queue A}
      → Holds g h xs q
      → enough flags ≤ fuel
      → Answers fuel flags q Call.pop xs
  unfolding Fifo.answer entry
  pop-Answers fuel flags [] v e = pop_none v fuel flags fresh e
  pop-Answers fuel flags (x ∷ xs) v e = pop_value v fuel flags fresh e

  call-Answers :
      (fuel : ℕ) (flags : List Bool) (c : Call A) (xs : List A) {h : ℕ} {q : Queue A}
      → Holds g h xs q
      → enough flags ≤ fuel
      → Answers fuel flags q c xs
  unfolding Fifo.answer entry
  call-Answers fuel flags (Call.push x) xs v e = push-Answers fuel flags x xs v e
  call-Answers fuel flags (Call.force_push x) xs v e = force_push-Answers fuel flags x xs v e
  call-Answers fuel flags Call.pop xs v e = pop-Answers fuel flags xs v e
  call-Answers fuel flags Call.is_empty xs v e = is_empty_lem v fuel flags (omega arith)
  call-Answers fuel flags Call.is_full xs v e = is_full_lem v fuel flags (omega arith)
  call-Answers fuel flags Call.len xs v e = len_lem v fuel flags (omega arith)

  -- A method that one thread calls alone on a queue that holds `xs`, where any given accesses fail
  -- spuriously, returns within `3 * length flags + 8` accesses with no undefined behaviour, with the
  -- reply of the bounded queue, and leaves the queue holding what the bounded queue then holds.
  pub call_refines :
      (fuel : ℕ) (flags : List Bool) (c : Call A) (xs : List A) {h : ℕ} {q : Queue A}
      → Holds g h xs q
      → enough flags ≤ fuel
      → (h' : ℕ) × (q' : Queue A) × (call b N fuel flags c q ≡ some ((Fifo.answer N c xs).0, q'))
        × Holds g h' (Fifo.answer N c xs).1 q'
  unfolding call
  call_refines fuel flags c xs v e = call-Answers fuel flags c xs v e
