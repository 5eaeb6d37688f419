-- ===== src/System/Invariant/Pushes.antt =====
-- `push_or_else` from its compare-exchange on, and the closure of `push`: they leave the invariant true.
use nure_queue.Atomic.{calling, answered, Act, put, ring_put, reject}
use nure_queue.System.Invariant.Contents.{length-contents}
use nure_queue.System.Invariant.Defs.{contents, call_of}
use nure_queue.System.Invariant.Owns.{slot_of, Owns-gained, Owns-kept, Owns-released, word_index}
use nure_queue.Common.{none, inl, inr}
use nure_queue.System.Invariant.Moves.{settle, if_then-Next}
use nure_queue.Thread.{ring}
use nure_queue.Thread.Step.Laws.{push_reply}
use nure_queue.Lap.Ticket.{add_lap}
use nure_queue.Common.{
  List, [], ◌∷◌, ◌++◌, length, ==→eq, ℕ, suc, ◌+◌, ◌*◌, ◌%◌, ◌≤◌, ◌<◌, ◌≡◌, refl, sym, ap, ap₂,
  subst, ◌∙◌, Bool, ◌&&◌, not, some, ◌==◌, arith,
}
use nure_queue.Common.Family.{update}
use nure_queue.Target.{Build, index_bits, wrapping_add}
use nure_queue.Lap.{next_pos}
use nure_queue.Lap.Geometry.{Geometry}
use nure_queue.Lap.Ticket.{position, slot-lt, add_one, next_pos-position}
use nure_queue.Backoff.{Backoff, spin}
use nure_queue.Queue.{Queue}
use nure_queue.Thread.{
  Closure, when_full, rejected, push_tail, push_stamp, push_claim, push_write, push_publish,
  full_head, done,
}
use nure_queue.Thread.Step.{step}
use nure_queue.Thread.Step.Laws.{step-push_write, step-push_publish}
use nure_queue.System.Invariant.Defs.{empty, full, claimed, writing, Ghost, Memory, Local}
use nure_queue.System.Invariant.Stamps.{near_position}
use nure_queue.System.Invariant.Moves.{
  Next, stay, if_Next, slot_index, slot-At, Bounds-At, staged, change_slot, won,
}
use nure_queue.System.Invariant.Tickets.{taken, take_put}

module _ {A : Type 0} {b : Build} {N L : ℕ} (g : Geometry b N L) (i : ℕ) (f : Bool) {x : Ghost A}
    {q : Queue A} (v : Memory g x q) (a : ℕ) (soon : a + 3 * N < N * g.laps) where
  -- A tail that has not changed is that of the same ticket.
  pub same_tail :
      (n : ℕ) {tail : ℕ}
      → (tail ≡ position g n) × (n ≤ x.puts) × (x.puts ≤ n + a)
      → q.tail ≡ tail
      → n ≡ x.puts
  same_tail n was e =
      near_position g n x.puts (omega (arith, was)) (omega (arith, was))
        (sym was.0 ∙ sym e ∙ v.tail)

  put-Act :
      (c : Closure) (w : A) (xs : List A)
      → length xs < N
      → Act N xs (calling (call_of c w)) (xs ++ (w ∷ [])) (answered (push_reply c))
  put-Act when_full w xs h = put w h
  put-Act ring w xs h = ring_put w h

  claim_wins :
      (c : Closure) (w : A) (k : Backoff) (tail : ℕ)
      → Local g x a i (push_claim c w k tail)
      → q.tail ≡ tail
      → Next g i a x none (record q { tail = next_pos b N q.one_lap tail }, push_write c w tail)
  claim_wins c w k tail (n, was, sees, at) e =
      let now : n ≡ x.puts = same_tail n was e in
      let bounds = Bounds-At g i v n (sees now) in
      let (memory, advance, stage, value, settles) =
        take_put g i v (n % N) (empty n) (claimed i n) w (next_pos b N q.one_lap tail)
          (calling (call_of c w)) (answered (push_reply c)) (slot-lt g n)
          (ap (λ j. j % N) (sym now)) (omega arith) (sees now) (λ j ne e. absurd (cc e))
          (λ e. absurd (cc e)) refl (omega (arith, v.ordered)) refl refl
          (ap₂ (next_pos b N) v.lap was.0
            ∙ next_pos-position g n
            ∙ ap (position g) {x = suc n} {y = x.puts + 1} (omega arith))
          at (put-Act c w (contents x)) refl in
      (
        taken g i v (n % N) (claimed i n) w (answered (push_reply c)),
        memory,
        (n, was.0, stage, ap (update x.value x.puts (some w)) now ∙ value, settles),
        advance,
        Owns-gained x.stage i (n % N) (claimed i n) (word_index g n was.0),
      )

  pub safe-push_claim :
      (c : Closure) (w : A) (k : Backoff) (tail : ℕ)
      → Local g x a i (push_claim c w k tail)
      → Next g i a x none (step b N f q (push_claim c w k tail))
  unfolding step
  safe-push_claim c w k tail l =
      if_Next g i a x (q.tail == tail && not f) _ (q, push_stamp c w (spin b k).0 q.tail)
        (λ e. claim_wins c w k tail l (won q.tail tail f e))
        (λ _.
          stay g i a (push_stamp c w (spin b k).0 q.tail) v
            (x.puts, (v.tail, omega arith, omega arith), l.3))

  -- `push` finds the queue full, or tries again.
  pub safe-full_head :
      (w : A) (k : Backoff) (tail : ℕ)
      → Local g x a i (full_head w k tail)
      → Next g i a x none (step b N f q (full_head w k tail))
  unfolding step
  safe-full_head w k tail (n, was, st) =
      if_then-Next g i a x q (wrapping_add (index_bits b) q.head q.one_lap == tail)
        (done (rejected w)) (push_tail when_full w (spin b k).0)
        (λ e.
          let lap : x.takes + N ≡ n =
            near_position g (x.takes + N) n (omega (arith, was, v.ordered, v.within))
              (omega (arith, was, v.ordered, v.within))
              (sym (ap₂ (wrapping_add (index_bits b)) v.head v.lap ∙ add_lap g x.takes)
                ∙ ==→eq _ _ e
                ∙ was.0) in
          settle g i a (done (rejected w)) (answered (rejected w)) v st
            (reject w (omega (arith, length-contents x v.known v.ordered, v.within, was))) (λ s. s))
        (λ _. stay g i a (push_tail when_full w (spin b k).0) v st)

module _ {A : Type 0} {b : Build} {N L : ℕ} (g : Geometry b N L) (i : ℕ) (f : Bool) {x : Ghost A}
    {q : Queue A} (v : Memory g x q) (a : ℕ) where
  pub safe-push_write :
      (c : Closure) (w : A) (tail : ℕ)
      → Local g x a i (push_write c w tail)
      → Next g i a x
          (slot_of {A = A} b L (push_write c w tail))
          (step b N f q (push_write c w tail))
  safe-push_write c w tail (n, e, here, val, st) =
      let (memory, at, advance) =
        change_slot g i v n (claimed i n) (writing i n) (position g n) (some w) here refl refl
          (Bounds-At g i v n here) refl (sym val) (inr refl) in
      subst (Next g i a x _)
        (sym (
          step-push_write b N f q tail (n % N) _ _ (slot_index g i v n e) (slot-At g i v n here) c
            w))
        (
          staged g i v (n % N) (writing i n),
          memory,
          (n, e, at, st),
          advance,
          Owns-kept x.stage i (n % N) (writing i n) (word_index g n e),
        )

  pub safe-push_publish :
      (c : Closure) (tail : ℕ)
      → Local g x a i (push_publish c tail)
      → Next g i a x
          (slot_of {A = A} b L (push_publish c tail))
          (step b N f q (push_publish c tail))
  safe-push_publish c tail (n, e, here, st) =
      let (memory, at, advance) =
        change_slot g i v n (writing i n) (full n) _ _ here refl refl (Bounds-At g i v n here)
          (ap (λ w. wrapping_add (index_bits b) w 1) e ∙ add_one g n) refl (inl refl) in
      subst (Next g i a x _)
        (sym (
          step-push_publish b N f q tail (n % N) _ _ (slot_index g i v n e) (slot-At g i v n here)
            c))
        (
          staged g i v (n % N) (full n),
          memory,
          st,
          advance,
          Owns-released x.stage i (n % N) (full n) (word_index g n e) refl,
        )
