-- ===== src/System/Invariant/Stamps.antt =====
-- What the stamp of a slot tells a thread that has loaded a position.
use nure_queue.Common.{ℕ, ◌+◌, ◌*◌, ◌%◌, ◌≤◌, ◌<◌, ◌≡◌, refl, sym, ap, ◌⊎◌, inl, inr, dec_le, arith}
use nure_queue.Target.{Build}
use nure_queue.Lap.Geometry.{Geometry}
use nure_queue.Lap.Ticket.{position, position_injective, position-ne-full}
use nure_queue.System.Invariant.Defs.{
  Stage, empty, full, claimed, writing, popping, reading, ring_claimed, ring_stored, ring_written,
  ticket_of, Bounds, stamp_of,
}

module _ {b : Build} {N L : ℕ} (g : Geometry b N L) where
  -- Words tell tickets apart that are less than all the laps apart.
  pub near_position :
      (m n : ℕ) → m < n + N * g.laps → n < m + N * g.laps → position g m ≡ position g n → m ≡ n
  near_position m n hm hn e = elim (dec_le m n) [
    | yes le ↦ position_injective g m n le hn e
    | no gt ↦ sym (position_injective g n m (omega arith) hm (sym e))
  ]

  -- A stamp that a push finds equal to the tail is that of a slot that is free for it.
  pub sees_empty :
      (t p : ℕ) (s : Stage)
      → t ≤ p
      → p ≤ t + N
      → N + N < N * g.laps
      → ticket_of s % N ≡ p % N
      → Bounds N t p s
      → position g p ≡ stamp_of g s
      → s ≡ empty p
  sees_empty t p (empty n) le lt far same h e =
      ap empty (sym (near_position p n (omega arith) (omega arith) e))
  sees_empty t p (claimed i n) le lt far same h e =
      absurd (omega (arith, near_position p n (omega arith) (omega arith) e))
  sees_empty t p (writing i n) le lt far same h e =
      absurd (omega (arith, near_position p n (omega arith) (omega arith) e))
  sees_empty t p (full n) le lt far same h e = absurd (position-ne-full g p n (sym same) e)
  sees_empty t p (popping i n) le lt far same h e = absurd (position-ne-full g p n (sym same) e)
  sees_empty t p (reading i n) le lt far same h e = absurd (position-ne-full g p n (sym same) e)
  sees_empty t p (ring_claimed i n) le lt far same h e =
      absurd (position-ne-full g p n (sym same) e)
  sees_empty t p (ring_stored i n) le lt far same h e = absurd (position-ne-full g p n (sym same) e)
  sees_empty t p (ring_written i n) le lt far same h e =
      absurd (position-ne-full g p n (sym same) e)

  -- A stamp that is one past the word of a ticket is that of a slot with a value of that ticket.
  pub stamp_full :
      (m : ℕ) (s : Stage)
      → ticket_of s % N ≡ m % N
      → stamp_of g s ≡ position g m + 1
      → position g (ticket_of s) ≡ position g m
  stamp_full m (empty n) same e = absurd (position-ne-full g n m same e)
  stamp_full m (claimed i n) same e = absurd (position-ne-full g n m same e)
  stamp_full m (writing i n) same e = absurd (position-ne-full g n m same e)
  stamp_full m (full n) same e = omega arith
  stamp_full m (popping i n) same e = omega arith
  stamp_full m (reading i n) same e = omega arith
  stamp_full m (ring_claimed i n) same e = omega arith
  stamp_full m (ring_stored i n) same e = omega arith
  stamp_full m (ring_written i n) same e = omega arith

  -- The tickets of the slots are about those of the head and the tail.
  pub ticket_near :
      (t p : ℕ) (s : Stage)
      → t ≤ p
      → p ≤ t + N
      → Bounds N t p s
      → (t ≤ ticket_of s + N) × (ticket_of s < t + N + N)
  ticket_near t p (empty n) le lt h = omega arith
  ticket_near t p (claimed i n) le lt h = omega arith
  ticket_near t p (writing i n) le lt h = omega arith
  ticket_near t p (full n) le lt h = omega arith
  ticket_near t p (popping i n) le lt h = omega arith
  ticket_near t p (reading i n) le lt h = omega arith
  ticket_near t p (ring_claimed i n) le lt h = omega arith
  ticket_near t p (ring_stored i n) le lt h = omega arith
  ticket_near t p (ring_written i n) le lt h = omega arith

  -- A value of the next ticket of the head has not been taken.
  pub sees_full :
      (t p : ℕ) (s : Stage)
      → t ≤ p
      → p ≤ t + N
      → Bounds N t p s
      → ticket_of s ≡ t
      → stamp_of g s ≡ position g t + 1
      → s ≡ full t
  sees_full t p (empty n) le lt h here e = absurd (omega (arith, ap (position g) here))
  sees_full t p (claimed i n) le lt h here e = absurd (omega (arith, ap (position g) here))
  sees_full t p (writing i n) le lt h here e = absurd (omega (arith, ap (position g) here))
  sees_full t p (full n) le lt h here e = ap full here
  sees_full t p (popping i n) le lt h here e = absurd (omega arith)
  sees_full t p (reading i n) le lt h here e = absurd (omega arith)
  sees_full t p (ring_claimed i n) le lt h here e = absurd (omega arith)
  sees_full t p (ring_stored i n) le lt h here e = absurd (omega arith)
  sees_full t p (ring_written i n) le lt h here e = absurd (omega arith)

  -- The stamp of a slot is the word of its ticket, or one past it.
  pub stamp_cases :
      (s : Stage)
      → (stamp_of g s ≡ position g (ticket_of s)) ⊎ (stamp_of g s ≡ position g (ticket_of s) + 1)
  stamp_cases (empty n) = inl refl
  stamp_cases (claimed i n) = inl refl
  stamp_cases (writing i n) = inl refl
  stamp_cases (full n) = inr refl
  stamp_cases (popping i n) = inr refl
  stamp_cases (reading i n) = inr refl
  stamp_cases (ring_claimed i n) = inr refl
  stamp_cases (ring_stored i n) = inr refl
  stamp_cases (ring_written i n) = inr refl
