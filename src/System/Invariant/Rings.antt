-- ===== src/System/Invariant/Rings.antt =====
-- The closure of `force_push`, and the methods that only read, in a queue with other threads.
use nure_queue.Atomic.{calling, replacing, answered, Act, replace_take, replace_put}
use nure_queue.Thread.{Call, option}
use nure_queue.Common.{
  ◌∷◌, ℕ, suc, ◌+◌, ◌*◌, ◌%◌, ◌<◌, ◌≡◌, refl, sym, ap, ap₂, subst, ◌∙◌, Bool, ◌&&◌, not, some, ◌==◌,
  arith,
}
use nure_queue.Common.Family.{update}
use nure_queue.Target.{Build, index_bits, wrapping_add, wrapping_sub}
use nure_queue.Lap.{next_pos}
use nure_queue.Lap.Geometry.{Geometry}
use nure_queue.Lap.Ticket.{position, slot-lt, add_one, sub_lap, next_pos-position}
use nure_queue.Backoff.{Backoff, spin}
use nure_queue.Queue.{Queue}
use nure_queue.Thread.{ring, push_tail, ring_claim, ring_tail, ring_replace, ring_publish}
use nure_queue.Thread.Step.{step}
use nure_queue.Thread.Step.Laws.{step-ring_replace, step-ring_publish}
use nure_queue.System.Invariant.Defs.{
  full, ring_claimed, ring_stored, ring_written, Ghost, Memory, At, Local,
}
use nure_queue.System.Invariant.Stamps.{near_position}
use nure_queue.System.Invariant.Owns.{slot_of, Owns-gained, Owns-kept, Owns-released, word_index}
use nure_queue.Common.{none, inl, inr}
use nure_queue.System.Invariant.Moves.{
  Next, stay, if_Next, slot_index, slot-At, Bounds-At, staged, change_slot, won,
}
use nure_queue.System.Invariant.Tickets.{taken, old_value, take_put, given, take_get}
use native.Mathlib.Nat.{add-mod_right}

module _ {A : Type 0} {b : Build} {N L : ℕ} (g : Geometry b N L) {x : Ghost A} {q : Queue A}
    (v : Memory g x q) where
  pub lap_before :
      (n : ℕ) {tail : ℕ}
      → tail ≡ position g (n + N)
      → wrapping_sub (index_bits b) tail q.one_lap ≡ position g n
  lap_before n e = ap₂ (wrapping_sub (index_bits b)) e v.lap ∙ sub_lap g n

  next_tail :
      (n : ℕ) {tail : ℕ}
      → tail ≡ position g (n + N)
      → next_pos b N q.one_lap tail ≡ position g (n + 1 + N)
  next_tail n e =
      ap₂ (next_pos b N) v.lap e
      ∙ next_pos-position g (n + N)
      ∙ ap (position g) {x = suc (n + N)} {y = n + 1 + N} (omega arith)

module _ {A : Type 0} {b : Build} {N L : ℕ} (g : Geometry b N L) (i : ℕ) (f : Bool) {x : Ghost A}
    {q : Queue A} (v : Memory g x q) (a : ℕ) (soon : a + 3 * N < N * g.laps) where
  ring_wins :
      (w : A) (k : Backoff) (tail : ℕ)
      → Local g x a i (ring_claim w k tail)
      → q.head ≡ wrapping_sub (index_bits b) tail q.one_lap
      → Next g i a x none (
        record q { head = wrapping_sub (index_bits b) (next_pos b N q.one_lap tail) q.one_lap },
        ring_tail w tail,
      )
  ring_wins w k tail (n, was, sees, at) e =
      let now : n ≡ x.takes =
        near_position g n x.takes (omega (arith, was, v.within, v.ordered, g.cap_pos))
          (omega (arith, was, v.within, v.ordered, g.cap_pos))
          (sym (lap_before g v n was.0) ∙ sym e ∙ v.head) in
      let first : At g x x.takes (full x.takes) = subst (λ m. At g x m (full m)) now (sees now) in
      let bounds = Bounds-At g i v x.takes first in
      let (memory, advance, stage, settles) =
        take_get g i v (ring_claimed i x.takes)
          (wrapping_sub (index_bits b) (next_pos b N q.one_lap tail) q.one_lap)
          (calling (Call.force_push w)) (replacing w (x.value x.takes)) bounds.1 first refl
          (omega (arith, v.within, was)) refl refl
          (ap₂ (wrapping_sub (index_bits b)) (next_tail g v n was.0) v.lap
            ∙ sub_lap g (n + 1)
            ∙ ap (λ m. position g (m + 1)) now)
          at
          (λ old ys is many.
            subst (λ o. Act N (old ∷ ys) (calling (Call.force_push w)) ys (replacing w o)) (sym is)
              (replace_take w old (omega (arith, many, v.within, was))))
          refl in
      (
        given g i v (ring_claimed i x.takes) (replacing w (x.value x.takes)),
        memory,
        (x.takes, was.0 ∙ ap (λ m. position g (m + N)) now, stage, settles),
        advance,
        Owns-gained x.stage i (x.takes % N) (ring_claimed i x.takes) (
            word_index g (x.takes + N) (was.0 ∙ ap (λ m. position g (m + N)) now)
            ∙ add-mod_right x.takes N),
      )

  pub safe-ring_claim :
      (w : A) (k : Backoff) (tail : ℕ)
      → Local g x a i (ring_claim w k tail)
      → Next g i a x none (step b N f q (ring_claim w k tail))
  unfolding step
  safe-ring_claim w k tail l =
      if_Next g i a x (q.head == wrapping_sub (index_bits b) tail q.one_lap && not f) _
        (q, push_tail ring w (spin b k).0) (λ e. ring_wins w k tail l (won _ _ f e))
        (λ _. stay g i a (push_tail ring w (spin b k).0) v l.3)

module _ {A : Type 0} {b : Build} {N L : ℕ} (g : Geometry b N L) (i : ℕ) (f : Bool) {x : Ghost A}
    {q : Queue A} (v : Memory g x q) (a : ℕ) where
  pub safe-ring_tail :
      (w : A) (tail : ℕ)
      → Local g x a i (ring_tail w tail)
      → Next g i a x (slot_of {A = A} b L (ring_tail w tail)) (step b N f q (ring_tail w tail))
  unfolding step
  safe-ring_tail w tail (n, e, here, at) =
      let bounds = Bounds-At g i v n here in
      let last : n + N ≡ x.puts = sym bounds.1 in
      let (memory, advance, stage, value, settles) =
        take_put g i v (n % N) (ring_claimed i n) (ring_stored i n) w (next_pos b N q.one_lap tail)
          (replacing w (x.value n)) (answered (option (x.value n))) (slot-lt g n)
          (ap (λ j. j % N) (sym last) ∙ add-mod_right n N) (omega arith) here (λ j ne e. ne (cc e))
          (λ e. absurd (cc e)) refl (omega (arith, v.ordered)) refl
          (old_value g i v w n (omega (arith, g.cap_pos)))
          (next_tail g v n e ∙ ap (position g) {x = n + 1 + N} {y = x.puts + 1} (omega arith)) at
          (replace_put w (x.value n)) refl in
      (
        taken g i v (n % N) (ring_stored i n) w (answered (option (x.value n))),
        memory,
        (
          n,
          e,
          stage,
          ap (update x.value x.puts (some w)) last ∙ value,
          settles
              ∙ ap (λ o. answered (option o))
                  (sym (old_value g i v w n (omega (arith, g.cap_pos)))),
        ),
        advance,
        Owns-kept x.stage i (n % N) (ring_stored i n) (word_index g (n + N) e ∙ add-mod_right n N),
      )

  pub safe-ring_replace :
      (w : A) (tail : ℕ)
      → Local g x a i (ring_replace w tail)
      → Next g i a x
          (slot_of {A = A} b L (ring_replace w tail))
          (step b N f q (ring_replace w tail))
  safe-ring_replace w tail (n, e, here, val, st) =
      let bounds = Bounds-At g i v n here in
      let (old, known) = v.known n (omega arith) in
      let (memory, at, advance) =
        change_slot g i v n (ring_stored i n) (ring_written i n) (position g n + 1) (some w) here
          refl refl bounds refl (sym val) (inr refl) in
      subst (Next g i a x _)
        (sym (
          step-ring_replace b N f q tail (n % N) _ old
            (slot_index g i v (n + N) e ∙ add-mod_right n N)
            (slot-At g i v n here
              ∙ ap (λ o. some (record { stamp = position g n + 1; value = o })) known)
            w))
        (
          staged g i v (n % N) (ring_written i n),
          memory,
          (n, e, at, st ∙ ap (λ o. answered (option o)) known),
          advance,
          Owns-kept x.stage i (n % N) (ring_written i n)
              (word_index g (n + N) e ∙ add-mod_right n N),
        )

  pub safe-ring_publish :
      (old : A) (tail : ℕ)
      → Local g x a i (ring_publish old tail)
      → Next g i a x
          (slot_of {A = A} b L (ring_publish old tail))
          (step b N f q (ring_publish old tail))
  safe-ring_publish old tail (n, e, here, known) =
      let (memory, at, advance) =
        change_slot g i v n (ring_written i n) (full (n + N)) _ _ here refl (add-mod_right n N)
          (Bounds-At g i v n here) (ap (λ w. wrapping_add (index_bits b) w 1) e ∙ add_one g (n + N))
          refl (inl refl) in
      subst (Next g i a x _)
        (sym (
          step-ring_publish b N f q tail (n % N) _ _
            (slot_index g i v (n + N) e ∙ add-mod_right n N) (slot-At g i v n here) old))
        (
          staged g i v (n % N) (full (n + N)),
          memory,
          known,
          advance,
          Owns-released x.stage i (n % N) (full (n + N))
              (word_index g (n + N) e ∙ add-mod_right n N) refl,
        )
