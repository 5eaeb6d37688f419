-- ===== src/System/Order/Exchange.antt =====
-- An exchange that will succeed is about a slot that no thread has to itself, and no other thread makes one
-- succeed.
use nure_queue.Common.{ℕ, ◌+◌, ◌*◌, ◌≤◌, ◌<◌, ◌≡◌, sym, ap, ap₂, ◌∙◌, none, arith}
use nure_queue.Target.{Build, index_bits, wrapping_sub}
use nure_queue.Lap.{index_of}
use nure_queue.Lap.Geometry.{Geometry}
use nure_queue.Lap.Ticket.{position, sub_lap}
use nure_queue.Queue.{Queue}
use nure_queue.Thread.{
  Point, push_tail, push_stamp, push_claim, push_write, push_publish, full_head, ring_claim,
  ring_tail, ring_replace, ring_publish, pop_head, pop_stamp, pop_claim, pop_read, pop_publish,
  pop_tail, empty_head, empty_tail, full_tail, full_check, len_tail, len_head, len_again, done,
  fault,
}
use nure_queue.System.Invariant.Defs.{Ghost, owner, Memory, Local}
use nure_queue.System.Invariant.Owns.{word_index}
use nure_queue.System.Invariant.Stamps.{near_position}
use nure_queue.System.Invariant.Rings.{lap_before}
use nure_queue.System.Order.Kinds.{Live}
use native.Mathlib.Nat.{add-mod_right}

module _ {A : Type 0} {b : Build} {N L : ℕ} (g : Geometry b N L) (a patience : ℕ)
    (far : patience + 3 * N ≤ N * g.laps) (soon : a < patience) (i : ℕ) {x : Ghost A} {q : Queue A}
    (v : Memory g x q) where
  -- The slot of a live exchange is free.
  pub Live-owner :
      (p : Point A) (w : ℕ)
      → Local g x a i p
      → Live b q p w
      → owner (x.stage (index_of b L w)) ≡ none
  Live-owner (push_claim c u k tail) w (n, was, sees, _) (e, is) =
      let now : n ≡ x.puts =
        near_position g n x.puts (omega (arith, was)) (omega (arith, was))
          (sym was.0 ∙ sym e ∙ v.tail) in
      ap (λ k. owner (x.stage k)) (word_index g n (is ∙ was.0)) ∙ ap owner (sees now)
  Live-owner (ring_claim u k tail) w (n, was, sees, _) (e, is) =
      let now : n ≡ x.takes =
        near_position g n x.takes (omega (arith, was, v.ordered, v.within, g.cap_pos))
          (omega (arith, was, v.ordered, v.within, g.cap_pos))
          (sym (lap_before g v n was.0) ∙ sym e ∙ v.head) in
      ap (λ k. owner (x.stage k)) (word_index g (n + N) (is ∙ was.0) ∙ add-mod_right n N)
      ∙ ap owner (sees now)
  Live-owner (pop_claim k head) w (n, was, sees, _) (e, is) =
      let now : n ≡ x.takes =
        near_position g n x.takes (omega (arith, was, g.cap_pos)) (omega (arith, was, g.cap_pos))
          (sym was.0 ∙ sym e ∙ v.head) in
      ap (λ k. owner (x.stage k)) (word_index g n (is ∙ was.0)) ∙ ap owner (sees now)
  Live-owner (push_tail c u k) w l h = absurd h
  Live-owner (push_stamp c u k tail) w l h = absurd h
  Live-owner (push_write c u tail) w l h = absurd h
  Live-owner (push_publish c tail) w l h = absurd h
  Live-owner (full_head u k tail) w l h = absurd h
  Live-owner (ring_tail u tail) w l h = absurd h
  Live-owner (ring_replace u tail) w l h = absurd h
  Live-owner (ring_publish u tail) w l h = absurd h
  Live-owner (pop_head k) w l h = absurd h
  Live-owner (pop_stamp k head) w l h = absurd h
  Live-owner (pop_read head) w l h = absurd h
  Live-owner (pop_publish u head) w l h = absurd h
  Live-owner (pop_tail k head) w l h = absurd h
  Live-owner empty_head w l h = absurd h
  Live-owner (empty_tail head) w l h = absurd h
  Live-owner full_tail w l h = absurd h
  Live-owner (full_check tail) w l h = absurd h
  Live-owner len_tail w l h = absurd h
  Live-owner (len_head tail) w l h = absurd h
  Live-owner (len_again tail head) w l h = absurd h
  Live-owner (done r) w l h = absurd h
  Live-owner fault w l h = absurd h

  -- An exchange that is live after a step of another thread was live before.
  pub Live-before :
      {y : Ghost A} {q' : Queue A}
      → Memory g y q'
      → (x.puts ≤ y.puts) × (y.puts ≤ x.puts + 1)
      → (x.takes ≤ y.takes) × (y.takes ≤ x.takes + 1)
      → (p : Point A) (w : ℕ) → Local g x a i p
      → Live b q' p w
      → Live b q p w
  Live-before {y} {q'} v' puts takes (push_claim c u k tail) w (n, was, _, _) (e, is) =
      let now : n ≡ y.puts =
        near_position g n y.puts (omega (arith, was, g.cap_pos)) (omega (arith, was, g.cap_pos))
          (sym was.0 ∙ sym e ∙ v'.tail) in
      (v.tail ∙ ap (position g) {x = x.puts} {y = n} (omega (arith, now, was)) ∙ sym was.0, is)
  Live-before {y} {q'} v' puts takes (ring_claim u k tail) w (n, was, _, _) (e, is) =
      let back : wrapping_sub (index_bits b) tail q'.one_lap ≡ position g n =
        ap₂ (wrapping_sub (index_bits b)) was.0 v'.lap ∙ sub_lap g n in
      let now : n ≡ y.takes =
        near_position g n y.takes (omega (arith, was, v.ordered, v.within, g.cap_pos))
          (omega (arith, was, v.ordered, v.within, g.cap_pos)) (sym back ∙ sym e ∙ v'.head) in
      (
        v.head
            ∙ ap (position g) {x = x.takes} {y = n} (omega (arith, now, was, v.within))
            ∙ sym (lap_before g v n was.0),
        is,
      )
  Live-before {y} {q'} v' puts takes (pop_claim k head) w (n, was, _, _) (e, is) =
      let now : n ≡ y.takes =
        near_position g n y.takes (omega (arith, was, g.cap_pos)) (omega (arith, was, g.cap_pos))
          (sym was.0 ∙ sym e ∙ v'.head) in
      (v.head ∙ ap (position g) {x = x.takes} {y = n} (omega (arith, now, was)) ∙ sym was.0, is)
  Live-before v' puts takes (push_tail c u k) w l h = absurd h
  Live-before v' puts takes (push_stamp c u k tail) w l h = absurd h
  Live-before v' puts takes (push_write c u tail) w l h = absurd h
  Live-before v' puts takes (push_publish c tail) w l h = absurd h
  Live-before v' puts takes (full_head u k tail) w l h = absurd h
  Live-before v' puts takes (ring_tail u tail) w l h = absurd h
  Live-before v' puts takes (ring_replace u tail) w l h = absurd h
  Live-before v' puts takes (ring_publish u tail) w l h = absurd h
  Live-before v' puts takes (pop_head k) w l h = absurd h
  Live-before v' puts takes (pop_stamp k head) w l h = absurd h
  Live-before v' puts takes (pop_read head) w l h = absurd h
  Live-before v' puts takes (pop_publish u head) w l h = absurd h
  Live-before v' puts takes (pop_tail k head) w l h = absurd h
  Live-before v' puts takes empty_head w l h = absurd h
  Live-before v' puts takes (empty_tail head) w l h = absurd h
  Live-before v' puts takes full_tail w l h = absurd h
  Live-before v' puts takes (full_check tail) w l h = absurd h
  Live-before v' puts takes len_tail w l h = absurd h
  Live-before v' puts takes (len_head tail) w l h = absurd h
  Live-before v' puts takes (len_again tail head) w l h = absurd h
  Live-before v' puts takes (done r) w l h = absurd h
  Live-before v' puts takes fault w l h = absurd h
