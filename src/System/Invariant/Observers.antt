-- ===== src/System/Invariant/Observers.antt =====
-- `is_full` and `len` in a queue with other threads leave the invariant true.
use nure_queue.Common.{
  ℕ, ◌+◌, ◌*◌, ◌<◌, ◌≡◌, refl, sym, ap, ap₂, subst, ◌∙◌, Bool, List, length, ◌==◌, ==→eq, arith,
}
use nure_queue.Target.{Build, index_bits, wrapping_add}
use nure_queue.Lap.{distance}
use nure_queue.Lap.Geometry.{Geometry}
use nure_queue.Lap.Ticket.{position, add_lap}
use nure_queue.Lap.Distance.{distance-position}
use nure_queue.Queue.{Queue}
use nure_queue.Thread.{flag, count, full_check, len_tail, len_head, len_again, done}
use nure_queue.Thread.Step.{step}
use nure_queue.Atomic.{
  Status, calling, measured, replacing, answered, Act, see_full, measure, measure_again,
  answer_count,
}
use nure_queue.System.Invariant.Defs.{Ghost, contents, Counting, Memory, Local}
use nure_queue.System.Invariant.Contents.{length-contents}
use nure_queue.System.Invariant.Stamps.{near_position}
use nure_queue.Common.{none}
use nure_queue.System.Invariant.Moves.{Next, stay, settle, if_then-Next}

-- `len` counts for the first time, or again.
count-Act :
    {A : Type 0} (N : ℕ) (xs : List A) (s : Status A)
    → Counting s
    → Act N xs s xs (measured (length xs))
count-Act N xs (calling c) e =
    subst (λ d. Act N xs (calling d) xs (measured (length xs))) (sym e) measure
count-Act N xs (measured k) e = measure_again k
count-Act N xs (replacing v o) e = absurd e
count-Act N xs (answered r) e = absurd e

module _ {A : Type 0} {b : Build} {N L : ℕ} (g : Geometry b N L) (i : ℕ) (f : Bool) {x : Ghost A}
    {q : Queue A} (v : Memory g x q) (a : ℕ) (soon : a + 3 * N < N * g.laps) where
  pub safe-full_check :
      (tail : ℕ)
      → Local g x a i (full_check tail)
      → Next g i a x none (step b N f q (full_check tail))
  unfolding step
  safe-full_check tail (n, was, st) =
      settle g i a (done (flag full_now)) (answered (flag full_now)) v st
        (see_full full_now (λ e.
          let lap : x.takes + N ≡ n =
            near_position g (x.takes + N) n (omega (arith, was, v.ordered, v.within))
              (omega (arith, was, v.ordered, v.within))
              (sym (ap₂ (wrapping_add (index_bits b)) v.head v.lap ∙ add_lap g x.takes)
                ∙ ==→eq _ _ e
                ∙ was.0) in
          omega (arith, length-contents x v.known v.ordered, v.within, was)))
        (λ s. s)
    where
      full_now : Bool
      full_now = wrapping_add (index_bits b) q.head q.one_lap == tail

  pub safe-len_head :
      (tail : ℕ) → Local g x a i (len_head tail) → Next g i a x none (step b N f q (len_head tail))
  unfolding step
  safe-len_head tail (n, was, counting) =
      settle g i a (len_again tail q.head) (measured (length (contents x))) v refl
        (count-Act N (contents x) (x.status i) counting)
        (λ s. (
          n,
          omega (arith, was),
          (
            x.takes,
            length (contents x),
            v.head,
            s,
            λ now. omega (arith, length-contents x v.known v.ordered, v.ordered, v.within),
          ),
        ))

  pub safe-len_again :
      (tail head : ℕ)
      → Local g x a i (len_again tail head)
      → Next g i a x none (step b N f q (len_again tail head))
  unfolding step
  safe-len_again tail head (n, was, (m, k, e, st, near)) =
      if_then-Next g i a x q (q.tail == tail) (done (count (distance b N q.one_lap head tail)))
        len_tail
        (λ same.
          let now : n ≡ x.puts =
            near_position g n x.puts (omega (arith, was)) (omega (arith, was))
              (sym was.0 ∙ sym (==→eq _ _ same) ∙ v.tail) in
          let counted : distance b N q.one_lap head tail ≡ k =
            ap₂ (distance b N q.one_lap) e (was.0 ∙ ap (position g) (near now).0)
            ∙ ap (λ l. distance b N l (position g m) (position g (m + k))) v.lap
            ∙ distance-position g m k (near now).1 in
          settle g i a (done (count (distance b N q.one_lap head tail))) (answered (count k)) v st
            (answer_count k) (λ s. s ∙ ap (λ d. answered (count d)) (sym counted)))
        (λ _. stay g i a len_tail v (subst Counting (sym st) tt))
