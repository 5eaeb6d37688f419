-- ===== src/System/Invariant/Pops.antt =====
-- `pop` in a queue with other threads: each access leaves the invariant true.
use nure_queue.Atomic.{calling, answered, Act, take, take_none, see_empty}
use nure_queue.System.Invariant.Defs.{contents, values_from}
use nure_queue.System.Invariant.Owns.{slot_of, Owns-gained, Owns-kept, Owns-released, word_index}
use nure_queue.Common.{none, inl, inr}
use nure_queue.System.Invariant.Moves.{settle, if_then-Next}
use nure_queue.Thread.{Call, flag, empty_tail}
use nure_queue.Common.{
  [], ◌∷◌, ◌-◌, ℕ, suc, ◌+◌, ◌*◌, ◌%◌, ◌≤◌, ◌<◌, ◌≡◌, refl, sym, ap, ap₂, subst, ◌∙◌, Bool, ◌&&◌,
  not, none, some, ◌==◌, ==→eq, arith,
}
use nure_queue.Target.{Build, index_bits, wrapping_add}
use nure_queue.Lap.{next_pos}
use nure_queue.Lap.Geometry.{Geometry}
use nure_queue.Lap.Ticket.{position, slot-lt, add_one, add_lap, next_pos-position}
use nure_queue.Backoff.{Backoff, spin, snooze}
use nure_queue.Queue.{Queue}
use nure_queue.Thread.{
  option, pop_head, pop_stamp, pop_claim, pop_read, pop_publish, pop_tail, done,
}
use nure_queue.Thread.Step.{step, after_pop_stamp}
use nure_queue.Thread.Step.Laws.{step-pop_stamp, step-pop_read, step-pop_publish}
use nure_queue.System.Invariant.Defs.{
  Stage, empty, full, popping, reading, Ghost, ticket_of, stamp_of, SlotIs, Memory, At, Local,
}
use nure_queue.System.Invariant.Stamps.{near_position, sees_full, stamp_full, ticket_near}
use nure_queue.System.Invariant.Moves.{
  Next, stay, if_Next, if_here, slot_index, slot-At, Bounds-At, staged, change_slot, won,
}
use native.Mathlib.Nat.{add-mod_right}
use nure_queue.System.Invariant.Tickets.{given, take_get}

module _ {A : Type 0} {b : Build} {N L : ℕ} (g : Geometry b N L) (i : ℕ) (f : Bool) {x : Ghost A}
    {q : Queue A} (v : Memory g x q) (a : ℕ) (soon : a + 3 * N < N * g.laps) where
  stamp_next :
      (n : ℕ) {head : ℕ}
      → (head ≡ position g n) × (n ≤ x.takes) × (x.takes ≤ n + a)
      → wrapping_add (index_bits b) head 1 ≡ stamp_of g (x.stage (n % N))
      → n ≡ x.takes
      → At g x n (full n)
  stamp_next n {head} was same now =
      sees_full g x.takes x.puts s v.ordered v.within here.bounds ticket
        (stamp ∙ ap (λ j. position g j + 1) now)
      ∙ ap full (sym now)
    where
      s : Stage
      s = x.stage (n % N)

      here : SlotIs g x q (n % N)
      here = v.slots (n % N) (slot-lt g n)

      bounds : (x.takes ≤ ticket_of s + N) × (ticket_of s < x.takes + N + N)
      bounds = ticket_near g x.takes x.puts s v.ordered v.within here.bounds

      stamp : stamp_of g s ≡ position g n + 1
      stamp = sym same ∙ ap (λ w. wrapping_add (index_bits b) w 1) was.0 ∙ add_one g n

      ticket : ticket_of s ≡ x.takes
      ticket =
          near_position g (ticket_of s) n (omega (arith, bounds, was)) (omega (arith, bounds, was))
            (stamp_full g n s here.index stamp)
          ∙ now

  pub safe-pop_stamp :
      (k : Backoff) (head : ℕ)
      → Local g x a i (pop_stamp k head)
      → Next g i a x none (step b N f q (pop_stamp k head))
  unfolding after_pop_stamp
  safe-pop_stamp k head (n, was, st) =
      subst (Next g i a x _)
        (sym (
          step-pop_stamp b N f q head (n % N) _ _ (slot_index g i v n was.0) (slot-At g i v n refl)
            k))
        (stay g i a (after_pop_stamp b N k head (stamp_of g (x.stage (n % N)))) v (
          if_here g i a x (wrapping_add (index_bits b) head 1 == stamp_of g (x.stage (n % N)))
            (pop_claim k head) _ (λ e. (n, omega (arith, was), stamp_next n was (==→eq _ _ e), st))
            (λ _.
              if_here g i a x _ (pop_tail k head) (pop_head (snooze b k).0)
                (λ e. (n, omega (arith, was), st)) (λ _. st))))

  -- A head that has not changed is that of the same ticket.
  pub same_head :
      (n : ℕ) {head : ℕ}
      → (head ≡ position g n) × (n ≤ x.takes) × (x.takes ≤ n + a)
      → q.head ≡ head
      → n ≡ x.takes
  same_head n was e =
      near_position g n x.takes (omega (arith, was, g.cap_pos)) (omega (arith, was, g.cap_pos))
        (sym was.0 ∙ sym e ∙ v.head)

  pop_wins :
      (k : Backoff) (head : ℕ)
      → Local g x a i (pop_claim k head)
      → q.head ≡ head
      → Next g i a x none (record q { head = next_pos b N q.one_lap head }, pop_read head)
  pop_wins k head (n, was, sees, at) e =
      let now : n ≡ x.takes = same_head n was e in
      let first : At g x x.takes (full x.takes) = subst (λ m. At g x m (full m)) now (sees now) in
      let bounds = Bounds-At g i v x.takes first in
      let (memory, advance, stage, settles) =
        take_get g i v (popping i x.takes) (next_pos b N q.one_lap head) (calling Call.pop)
          (answered (option (x.value x.takes))) bounds.1 first refl (omega (arith, v.within)) refl
          refl
          (ap₂ (next_pos b N) v.lap was.0
            ∙ next_pos-position g n
            ∙ ap (position g) {x = suc n} {y = x.takes + 1} (omega arith))
          at
          (λ old ys is _.
            subst (λ o. Act N (old ∷ ys) (calling Call.pop) ys (answered (option o))) (sym is)
              (take old))
          refl in
      (
        given g i v (popping i x.takes) (answered (option (x.value x.takes))),
        memory,
        (x.takes, was.0 ∙ ap (position g) now, stage, settles),
        advance,
        Owns-gained x.stage i (x.takes % N) (popping i x.takes)
            (word_index g x.takes (was.0 ∙ ap (position g) now)),
      )

  pub safe-pop_claim :
      (k : Backoff) (head : ℕ)
      → Local g x a i (pop_claim k head)
      → Next g i a x none (step b N f q (pop_claim k head))
  unfolding step
  safe-pop_claim k head l =
      if_Next g i a x (q.head == head && not f) _ (q, pop_stamp (spin b k).0 q.head)
        (λ e. pop_wins k head l (won q.head head f e))
        (λ _.
          stay g i a (pop_stamp (spin b k).0 q.head) v
            (x.takes, (v.head, omega arith, omega arith), l.3))

  -- A tail that is found at a head that was loaded: there is no value.
  found_empty :
      (n : ℕ) {head : ℕ}
      → (head ≡ position g n) × (n ≤ x.takes) × (x.takes ≤ n + a)
      → q.tail ≡ head
      → contents x ≡ []
  found_empty n was e =
      let now : n ≡ x.puts =
        near_position g n x.puts (omega (arith, was, v.ordered, v.within))
          (omega (arith, was, v.ordered, v.within)) (sym was.0 ∙ sym e ∙ v.tail) in
      ap (values_from x.value x.takes) {x = x.puts - x.takes} {y = 0}
        (omega (arith, was, v.ordered))

  pub safe-pop_tail :
      (k : Backoff) (head : ℕ)
      → Local g x a i (pop_tail k head)
      → Next g i a x none (step b N f q (pop_tail k head))
  unfolding step
  safe-pop_tail k head (n, was, st) =
      if_then-Next g i a x q (q.tail == head) (done (option none)) (pop_head (spin b k).0)
        (λ e.
          settle g i a (done (option none)) (answered (option none)) v st
            (subst (λ xs. Act N xs (calling Call.pop) xs (answered (option none)))
              (sym (found_empty n was (==→eq _ _ e))) take_none)
            (λ s. s))
        (λ _. stay g i a (pop_head (spin b k).0) v st)

  pub safe-empty_tail :
      (head : ℕ)
      → Local g x a i (empty_tail head)
      → Next g i a x none (step b N f q (empty_tail head))
  unfolding step
  safe-empty_tail head (n, was, st) =
      settle g i a (done (flag (q.tail == head))) (answered (flag (q.tail == head))) v st
        (see_empty (q.tail == head) (λ e. found_empty n was (==→eq _ _ e))) (λ s. s)

module _ {A : Type 0} {b : Build} {N L : ℕ} (g : Geometry b N L) (i : ℕ) (f : Bool) {x : Ghost A}
    {q : Queue A} (v : Memory g x q) (a : ℕ) where
  pub safe-pop_read :
      (head : ℕ)
      → Local g x a i (pop_read head)
      → Next g i a x (slot_of {A = A} b L (pop_read head)) (step b N f q (pop_read head))
  safe-pop_read head (n, e, here, st) =
      let bounds = Bounds-At g i v n here in
      let (msg, known) = v.known n (omega (arith, v.ordered)) in
      let (memory, at, advance) =
        change_slot g i v n (popping i n) (reading i n) (position g n + 1) none here refl refl
          bounds refl refl (inr refl) in
      subst (Next g i a x _)
        (sym (
          step-pop_read b N f q head (n % N) _ msg (slot_index g i v n e) (
            slot-At g i v n here
            ∙ ap (λ o. some (record { stamp = position g n + 1; value = o })) known)))
        (
          staged g i v (n % N) (reading i n),
          memory,
          (n, e, at, st ∙ ap (λ o. answered (option o)) known),
          advance,
          Owns-kept x.stage i (n % N) (reading i n) (word_index g n e),
        )

  pub safe-pop_publish :
      (msg : A) (head : ℕ)
      → Local g x a i (pop_publish msg head)
      → Next g i a x
          (slot_of {A = A} b L (pop_publish msg head))
          (step b N f q (pop_publish msg head))
  safe-pop_publish msg head (n, e, here, known) =
      let bounds = Bounds-At g i v n here in
      let (memory, at, advance) =
        change_slot g i v n (reading i n) (empty (n + N)) _ none here refl (add-mod_right n N)
          (omega arith) (ap₂ (wrapping_add (index_bits b)) e v.lap ∙ add_lap g n) refl (inl refl) in
      subst (Next g i a x _)
        (sym (
          step-pop_publish b N f q head (n % N) _ _ (slot_index g i v n e) (slot-At g i v n here)
            msg))
        (
          staged g i v (n % N) (empty (n + N)),
          memory,
          known,
          advance,
          Owns-released x.stage i (n % N) (empty (n + N)) (word_index g n e) refl,
        )
