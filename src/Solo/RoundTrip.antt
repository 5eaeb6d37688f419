-- ===== src/Solo/RoundTrip.antt =====
-- What is pushed into a new queue comes out again, by one thread alone.
use nure_queue.Common.{
  ℕ, ◌+◌, ◌≤◌, ◌≡◌, refl, ap, ◌∙◌, Bool, List, [], ◌∷◌, ◌++◌, Option, none, some, length,
  length-append, lt→ltb, arith,
}
use mathlib.Core.List.{append_assoc, append-nil}
use native.Mathlib.Nat.{le_refl}
use nure_queue.Target.{Build}
use nure_queue.Lap.Geometry.{Geometry}
use nure_queue.Queue.{Queue, empty_queue}
use nure_queue.Thread.{Reply, pushed, option, Call}
use nure_queue.Fifo
use nure_queue.Solo.{call}
use nure_queue.Solo.Run.{enough}
use nure_queue.Solo.Holds.{Holds, empty_queue-Holds}
use nure_queue.Solo.Refine.{call_refines}

module _ {ℓ} {A : Type ℓ} (b : Build) (N : ℕ) where
  -- `push` of each value in order; `none` where one does not return `Ok(())`.
  after_pushed : Option (Reply A × Queue A) → (Queue A → Option (Queue A)) → Option (Queue A)
  after_pushed (some (pushed, q)) next = next q
  after_pushed o next = none

  pub push_all : List (A × List Bool) → Queue A → Option (Queue A)
  unfolding after_pushed
  push_all [] q = some q
  push_all ((v, flags) ∷ vs) q =
      after_pushed (call b N (enough flags) flags (Call.push v) q) (push_all vs)

  -- `pop` once for each list of flags, and the values in the order in which they come; `none` where one
  -- does not return a value.
  after_popped :
      Option (Reply A × Queue A) → (Queue A → Option (List A × Queue A)) → Option (List A × Queue A)
  after_popped (some (option (some v), q)) next = elim (next q) [
    | none ↦ none
    | some (vs, q') ↦ some (v ∷ vs, q')
  ]
  after_popped o next = none

  pub pop_all : List (List Bool) → Queue A → Option (List A × Queue A)
  unfolding after_popped
  pop_all [] q = some ([], q)
  pop_all (flags ∷ rest) q = after_popped (call b N (enough flags) flags Call.pop q) (pop_all rest)

abbrev pub values {ℓ} : {A : Type ℓ} → List (A × List Bool) → List A
values [] = []
values ((v, flags) ∷ vs) = v ∷ values vs

module _ {ℓ} {A : Type ℓ} {b : Build} {N L : ℕ} (g : Geometry b N L) where
  push_all_lem :
      (vs : List (A × List Bool)) (xs : List A) {h : ℕ} {q : Queue A}
      → Holds g h xs q
      → length xs + length (values vs) ≤ N
      → (h' : ℕ) × (q' : Queue A) × (push_all b N vs q ≡ some q') × Holds g h' (xs ++ values vs) q'
  unfolding push_all Fifo.answer Fifo.push
  push_all_lem [] xs {h} {q} v fits = (h, q, refl, rw append-nil v)
  push_all_lem ((x, flags) ∷ vs) xs v fits =
      let (h', q', runs, v') = call_refines g (enough flags) flags (Call.push x) xs v (le_refl _) in
      let room = lt→ltb (length xs) N (omega arith) in
      let (h2, q2, rest, v2) =
        push_all_lem vs (xs ++ (x ∷ [])) (rw room at v')
          (omega (arith, length-append xs (x ∷ []))) in
      (
        h2,
        q2,
        ap (λ o. after_pushed b N o (push_all b N vs)) (rw room at runs) ∙ rest,
        rw append_assoc at v2,
      )

  pop_all_lem :
      (fs : List (List Bool)) (xs : List A) {h : ℕ} {q : Queue A}
      → Holds g h xs q
      → length fs ≡ length xs
      → (h' : ℕ) × (q' : Queue A) × (pop_all b N fs q ≡ some (xs, q')) × Holds g h' [] q'
  unfolding pop_all Fifo.answer Fifo.pop
  pop_all_lem [] [] {h} {q} v e = (h, q, refl, v)
  pop_all_lem [] (x ∷ xs) v e = absurd (omega arith)
  pop_all_lem (flags ∷ fs) [] v e = absurd (omega arith)
  pop_all_lem (flags ∷ fs) (x ∷ xs) v e =
      let (h', q', runs, v') =
        call_refines g (enough flags) flags Call.pop (x ∷ xs) v (le_refl _) in
      let (h2, q2, rest, v2) = pop_all_lem fs xs v' (omega arith) in
      (
        h2,
        q2,
        ap (λ o. after_popped b N o (pop_all b N fs)) runs
            ∙ ap (λ o. elim o [ none ↦ none | some (vs, q) ↦ some (x ∷ vs, q) ]) rest,
        v2,
      )

  -- One thread that pushes at most N values into a new queue and then pops as many times is given the
  -- same values in the same order, whichever accesses fail spuriously: every push and every pop returns,
  -- no push gives its value back, and no pop finds the queue empty.
  pub pop_all-push_all :
      (vs : List (A × List Bool)) (fs : List (List Bool))
      → length (values vs) ≤ N
      → length fs ≡ length (values vs)
      → (q q' : Queue A) × (push_all b N vs (empty_queue b N L) ≡ some q)
        × (pop_all b N fs q ≡ some (values vs, q'))
  pop_all-push_all vs fs fits many =
      let (h, q, pushes, v) = push_all_lem vs [] (empty_queue-Holds g A) (omega arith) in
      let (h', q', pops, _) = pop_all_lem fs (values vs) v many in (q, q', pushes, pops)
