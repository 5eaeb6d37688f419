-- ===== src/System/Linear/Access.antt =====
-- Each access of a thread is an action of Atomic.Exact.Measured.
use nure_queue.Common.{
  ℕ, ◌+◌, ◌*◌, ◌≤◌, ◌<◌, ◌≡◌, refl, sym, ap, ap₂, subst, ◌∙◌, Bool, true, false, length, none, ◌==◌,
  eq→==, ==→eq, ℕ_discrete, arith,
}
use nure_queue.Target.{Build, index_bits, wrapping_add}
use nure_queue.Lap.Geometry.{Geometry}
use nure_queue.Lap.Ticket.{position, add_lap}
use nure_queue.Common.Family.{update_self}
use nure_queue.Queue.{Queue}
use nure_queue.Thread.{Call, flag, Point, empty_tail, full_check, done}
use nure_queue.Thread.Step.{step}
use nure_queue.Atomic.{Status, answered}
use nure_queue.Atomic.Exact.{idle}
use nure_queue.Atomic.Exact.Measured.{
  Measured, fifo, Act-Measured, Act-calling, see_true, full_true,
}
use nure_queue.System.{next_age, relies}
use nure_queue.System.Invariant.Defs.{Ghost, contents, Memory, HeadWas, TailWas, Local}
use nure_queue.System.Invariant.Contents.{length-contents}
use nure_queue.System.Invariant.Frame.{Keeps, Advance-refl}
use nure_queue.System.Invariant.Stamps.{near_position}
use nure_queue.System.Invariant.Moves.{settled, settled-Memory}
use nure_queue.System.Invariant.Owns.{slot_of, Owns}
use nure_queue.System.Invariant.Accesses.{safe-step}
use nure_queue.System.Invariant.All.{settled-Keeps}
use nure_queue.System.Linear.Looks.{
  plain, Seen, same, empty_waits, empty_settled, full_waits, full_settled, looks_empty, looks_full,
  Kind, at_empty_head, at_full_tail, looking, elsewhere, kind, Local-plain,
}

-- What is true after an access of thread `i`, which had status `s` in Atomic.Exact.Measured.Measured.
pub record Accessed {A : Type 0} {b : Build} {N L : ℕ} (g : Geometry b N L) (x : Ghost A) (i a : ℕ)
    (s : Status A) (q : Queue A) (p : Point A) : Type 0 where
  pub tickets : Ghost A
  pub memory : Memory g tickets q
  pub mine : Local g tickets (next_age a p) i p
  pub keeps : Keeps i x tickets
  pub own : Owns tickets.stage i (slot_of b L p)
  pub status : Status A
  pub acts : Measured N (contents x) s (contents tickets) status
  pub seen : Seen g tickets (next_age a p) (tickets.status i) p status

module _ {A : Type 0} {b : Build} {N L : ℕ} (g : Geometry b N L) (i a : ℕ) {x : Ghost A}
    {q : Queue A} (v : Memory g x q) {s : Status A} where
  -- A thread loads the position that it looks at.
  load-Accessed :
      (p : Point A)
      → Local g x (next_age a p) i p
      → Owns x.stage i (slot_of b L p)
      → (s' : Status A) × Measured N (contents x) s (contents x) s'
        × Seen g x (next_age a p) (x.status i) p s'
      → Accessed g x i a s q p
  load-Accessed p l own (s', act, seen) = record {
    tickets = x;
    memory = v;
    mine = l;
    keeps = (Advance-refl N i x).keeps;
    own = own;
    status = s';
    acts = act;
    seen = seen;
  }

  -- A thread answers what it has settled, or settles now.
  answer-Accessed :
      (r : Bool)
      → Owns x.stage i none
      → Measured N (contents x) s (contents x) (answered (flag r))
      → Accessed g x i a s q (done (flag r))
  answer-Accessed r own act = record {
    tickets = settled g i x (answered (flag r));
    memory = settled-Memory g i (answered (flag r)) v;
    mine = now;
    keeps = settled-Keeps g x i (answered (flag r));
    own = own;
    status = answered (flag r);
    acts = act;
    seen = same refl (sym now);
  }
    where
      now : (settled g i x (answered (flag r))).status i ≡ answered (flag r)
      now = update_self x.status (answered (flag r)) i i refl

module _ {A : Type 0} {b : Build} {N L : ℕ} (g : Geometry b N L) (i a patience : ℕ) (f : Bool)
    (far : patience + 3 * N ≤ N * g.laps) {x : Ghost A} {q : Queue A} (v : Memory g x q) where
  many : length (contents x) + x.takes ≡ x.puts
  many = omega (arith, length-contents x v.known v.ordered, v.ordered)

  -- The second load of `is_empty` finds the head where it was exactly if no ticket has come since.
  empty_tail-Accessed :
      {s : Status A} (head : ℕ) (r : Bool) (m : ℕ)
      → a < patience
      → HeadWas g x a m head
      → Owns x.stage i none
      → (q.tail == head) ≡ r
      → (m ≡ x.puts → Measured N (contents x) s (contents x) (answered (flag true)))
      → (m < x.puts → Measured N (contents x) s (contents x) (answered (flag false)))
      → Accessed g x i a s q (done (flag r))
  empty_tail-Accessed head true m soon was own e one two = answer-Accessed g i a v true own (
      one (
        near_position g m x.puts (omega (arith, soon, far, was, v.ordered, v.within))
          (omega (arith, soon, far, was, v.ordered, v.within))
          (sym was.0 ∙ sym (==→eq _ _ e) ∙ v.tail)))
  empty_tail-Accessed head false m soon was own e one two = elim (ℕ_discrete m x.puts) [
    | yes now ↦ cc (eq→== q.tail head (v.tail ∙ ap (position g) (sym now) ∙ sym was.0), e)
    | no ne ↦ answer-Accessed g i a v false own (two (omega (arith, ne, was, v.ordered)))
  ]

  full_check-Accessed :
      {s : Status A} (tail : ℕ) (r : Bool) (m : ℕ)
      → a < patience
      → TailWas g x a m tail
      → Owns x.stage i none
      → (wrapping_add (index_bits b) q.head q.one_lap == tail) ≡ r
      → (m ≡ x.takes + N → Measured N (contents x) s (contents x) (answered (flag true)))
      → (m < x.takes + N → Measured N (contents x) s (contents x) (answered (flag false)))
      → Accessed g x i a s q (done (flag r))
  full_check-Accessed tail true m soon was own e one two = answer-Accessed g i a v true own (
      one (
        near_position g m (x.takes + N) (omega (arith, soon, far, was, v.ordered, v.within))
          (omega (arith, soon, far, was, v.ordered, v.within))
          (sym was.0 ∙ sym (==→eq _ _ e) ∙ ahead)))
    where
      ahead : wrapping_add (index_bits b) q.head q.one_lap ≡ position g (x.takes + N)
      ahead = ap₂ (wrapping_add (index_bits b)) v.head v.lap ∙ add_lap g x.takes
  full_check-Accessed tail false m soon was own e one two = elim (ℕ_discrete m (x.takes + N)) [
    | yes now ↦ cc (
      eq→== (wrapping_add (index_bits b) q.head q.one_lap) tail (
          ap₂ (wrapping_add (index_bits b)) v.head v.lap
          ∙ add_lap g x.takes
          ∙ ap (position g) (sym now)
          ∙ sym was.0),
      e,
    )
    | no ne ↦ answer-Accessed g i a v false own (two (omega (arith, ne, was, v.within)))
  ]

  -- An access from a point where the two statuses are the same.
  plain-Accessed :
      (p : Point A) {s : Status A}
      → (relies p ≡ true → a < patience)
      → Local g x a i p
      → Owns x.stage i (slot_of b L p)
      → plain p ≡ true
      → s ≡ x.status i
      → Kind (x.status i) p
      → (let (q', p') = step b N f q p in Accessed g x i a s q' p')
  unfolding step
  plain-Accessed p soon l own pl e at_empty_head =
      load-Accessed g i a v (empty_tail q.head) (x.takes, (v.head, omega arith, omega arith), l) own
        (looks_empty g v 0 (x.status i) x.takes q.head (v.head, omega arith, omega arith) refl
          (e ∙ l))
  plain-Accessed p soon l own pl e at_full_tail =
      load-Accessed g i a v (full_check q.tail) (x.puts, (v.tail, omega arith, omega arith), l) own
        (looks_full g v 0 (x.status i) x.puts q.tail (v.tail, omega arith, omega arith) refl
          (e ∙ l))
  plain-Accessed p soon l own pl e (looking not _) = cc (pl, not)
  plain-Accessed p {s} soon l own pl e (elsewhere _ one two) =
      let (y, memory, mine, advance, owns) = safe-step g i f a patience p far v soon l in
      let act = Act-Measured advance.acts one two in
      record {
        tickets = y;
        memory = memory;
        mine = mine;
        keeps = advance.keeps;
        own = owns own;
        status = y.status i;
        acts = subst (λ z. Measured N (contents x) z (contents y) (y.status i)) (sym e) act;
        seen =
            same
              (Local-plain g y _ i _ mine (λ z. one (Act-calling Call.is_empty advance.acts z))
                (λ z. two (Act-calling Call.is_full advance.acts z)))
              refl;
      }

  pub step-Accessed :
      (p : Point A) {s : Status A}
      → (relies p ≡ true → a < patience)
      → Local g x a i p
      → Owns x.stage i (slot_of b L p)
      → Seen g x a (x.status i) p s
      → (let (q', p') = step b N f q p in Accessed g x i a s q' p')
  unfolding step
  step-Accessed p soon l own (same pl e) = plain-Accessed p soon l own pl e (kind g x a i p l)
  step-Accessed p soon l own (empty_waits {head} m was now e) =
      empty_tail-Accessed head _ m (soon refl) was own refl
        (λ _.
          subst (λ z. Measured N (contents x) z (contents x) (answered (flag true))) (sym e)
            (fifo (see_true (omega (arith, many, was, now, v.ordered)))))
        (λ lt. absurd (omega (arith, lt, now)))
  step-Accessed p soon l own (empty_settled {head} m was lt e) =
      empty_tail-Accessed head _ m (soon refl) was own refl (λ now. absurd (omega (arith, lt, now)))
        (λ _.
          subst (λ z. Measured N (contents x) z (contents x) (answered (flag false))) (sym e)
            (fifo idle))
  step-Accessed p soon l own (full_waits {tail} m was now e) =
      full_check-Accessed tail _ m (soon refl) was own refl
        (λ _.
          subst (λ z. Measured N (contents x) z (contents x) (answered (flag true))) (sym e)
            (fifo (full_true (omega (arith, many, was, now, v.within)))))
        (λ lt. absurd (omega (arith, lt, now)))
  step-Accessed p soon l own (full_settled {tail} m was lt e) =
      full_check-Accessed tail _ m (soon refl) was own refl (λ now. absurd (omega (arith, lt, now)))
        (λ _.
          subst (λ z. Measured N (contents x) z (contents x) (answered (flag false))) (sym e)
            (fifo idle))
