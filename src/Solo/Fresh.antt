-- ===== src/Solo/Fresh.antt =====
-- What `new` of src/lib.rs returns for a capacity that its assertions let through.
use nure_queue.Common.{ℕ, ◌/◌, ◌≤◌, ◌<◌, ◌≡◌, refl, ap, ◌∙◌, Bool, List, [], none, some, arith}
use native.Mathlib.Nat.{le_refl, mod-eq_of_lt}
use nure_queue.Target.{Build, IsTarget, isize_max, as_index}
use nure_queue.Target.Bounds.{pow-pointer_width-le}
use nure_queue.Lap.Geometry.{Geometry}
use nure_queue.Queue.{Queue, empty_queue, new}
use nure_queue.Queue.New.{fill_lem, fill_above, new_accepts}
use nure_queue.Thread.{Call}
use nure_queue.Fifo
use nure_queue.Solo.{call}
use nure_queue.Solo.Run.{enough}
use nure_queue.Solo.Holds.{empty_queue-Holds}
use nure_queue.Solo.Refine.{call_refines}

module _ {A : Type 0} {b : Build} {N L : ℕ} (g : Geometry b N L) where
  empty_slot :
      (i : ℕ)
      → i < N
      → (empty_queue {A = A} b N L).buffer i ≡ some (record { stamp = i; value = none })
  unfolding empty_queue as_index
  empty_slot i lt =
      fill_lem b N 0 i _ (omega arith) (omega (arith, lt))
      ∙ ap (λ n. some (record { stamp = n; value = none }))
          (mod-eq_of_lt (omega (arith, lt, g.addressable, pow-pointer_width-le g.target)))

  no_slot : (i : ℕ) → N ≤ i → (empty_queue {A = A} b N L).buffer i ≡ none
  unfolding empty_queue
  no_slot i le = fill_above b N 0 i _ (omega (arith, le))

  first_call :
      (c : Call A) (flags : List Bool)
      → (q : Queue A) × (call b N (enough flags) flags c (empty_queue b N L)
          ≡ some ((Fifo.answer N c []).0, q))
  first_call c flags =
      let (_, q, e, _) =
        call_refines g (enough flags) flags c [] (empty_queue-Holds g A) (le_refl _) in
      (q, e)

-- For a capacity of at least 1 and at most half of the largest `isize`, `new` returns a queue with head
-- and tail 0, whose slots below the capacity have their own index as stamp and no payload and which has
-- no others, and any first call of a method, by one thread alone, returns within
-- `3 * length flags + 8` accesses, whichever of its accesses fail spuriously, with the reply of an empty
-- bounded queue.
pub new_fresh :
    {A : Type 0} (b : Build) (N : ℕ)
    → IsTarget b
    → 0 < N
    → N ≤ isize_max b / 2
    → (q : Queue A) × (new b N ≡ some q)
      × (q.head ≡ 0)
      × (q.tail ≡ 0)
      × ((i : ℕ) → i < N → q.buffer i ≡ some (record { stamp = i; value = none }))
      × ((i : ℕ) → N ≤ i → q.buffer i ≡ none)
      × ((c : Call A) (flags : List Bool)
          → (q' : Queue A) × (call b N (enough flags) flags c q
              ≡ some ((Fifo.answer N c []).0, q')))
unfolding empty_queue
new_fresh {A} b N t pos small =
    let (lap, e, g) = new_accepts b t N pos small in
    (empty_queue b N lap, e, refl, refl, empty_slot g, no_slot g, first_call g)
