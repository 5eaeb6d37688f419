-- ===== src/Queue/New.antt =====
-- The lap and the memory of the queue that `new` lays out.
use nure_queue.Common.{
  ℕ, zero, suc, ◌+◌, ◌/◌, ◌^◌, ◌≤◌, ◌<◌, ◌≡◌, refl, ap, ◌∙◌, Option, none, some, lt→ltb, le→not-ltb,
  dec_lt, arith,
}
use nure_queue.Common.Family.{update_self, update_ne}
use nure_queue.Target.{Build, IsTarget, index_bits, isize_max, as_index}
use nure_queue.Target.Bounds.{pow-pointer_width-le}
use nure_queue.Lap.{one_lap_for}
use nure_queue.Lap.Geometry.{Geometry, one_lap_for-Geometry}
use nure_queue.Slot.{Slot}
use nure_queue.Queue.{fill, empty_queue, new}
use native.Mathlib.Nat.{mod-eq_of_lt}

module _ {ℓ} {A : Type ℓ} (b : Build) where
  fill_below :
      (rounds i j : ℕ) (buffer : ℕ → Option (Slot A)) → j < i → fill b rounds i buffer j ≡ buffer j
  unfolding fill
  fill_below zero i j buffer h = refl
  fill_below (suc rounds) i j buffer h =
      fill_below rounds (i + 1) j _ (omega arith) ∙ update_ne buffer _ i j (omega arith)

  pub fill_above :
      (rounds i j : ℕ) (buffer : ℕ → Option (Slot A))
      → i + rounds ≤ j
      → fill b rounds i buffer j ≡ buffer j
  unfolding fill
  fill_above zero i j buffer h = refl
  fill_above (suc rounds) i j buffer h =
      fill_above rounds (i + 1) j _ (omega arith) ∙ update_ne buffer _ i j (omega arith)

  -- A round of the loop has written each slot from `i` on.
  pub fill_lem :
      (rounds i j : ℕ) (buffer : ℕ → Option (Slot A))
      → i ≤ j
      → j < i + rounds
      → fill b rounds i buffer j ≡ some (record { stamp = as_index b j; value = none })
  unfolding fill
  fill_lem zero i j buffer le lt = absurd (omega arith)
  fill_lem (suc rounds) i j buffer le lt = elim (dec_lt i j) [
    | yes later ↦ fill_lem rounds (i + 1) j _ (omega arith) (omega arith)
    | no now ↦
        let here : i ≡ j = omega arith in
        rw here (fill_below rounds (j + 1) j _ (omega arith) ∙ update_self buffer _ j j refl)
  ]

  -- Past the assertions, `new` is the empty queue of the lap that `one_lap_for` finds.
  new_of_lap :
      (N lap : ℕ)
      → 0 < N
      → N ≤ isize_max b / 2
      → N < 2 ^ index_bits b
      → one_lap_for (index_bits b) N ≡ some lap
      → new {A = A} b N ≡ some (empty_queue b N lap)
  unfolding new as_index
  new_of_lap N lap pos small fits e =
      rw (lt→ltb 0 N pos, le→not-ltb (isize_max b / 2) N small)
        (ap (λ (o : Option ℕ). elim o [ none ↦ none | some l ↦ some (empty_queue b N l) ])
          (ap (one_lap_for (index_bits b)) (mod-eq_of_lt fits) ∙ e))

  pub new_accepts :
      (t : IsTarget b) (N : ℕ)
      → 0 < N
      → N ≤ isize_max b / 2
      → (lap : ℕ) × (new {A = A} b N ≡ some (empty_queue b N lap)) × Geometry b N lap
  new_accepts t N pos small =
      let (lap, e, g) = one_lap_for-Geometry N t pos small in
      (lap, new_of_lap N lap pos small (omega (arith, g.addressable, pow-pointer_width-le t)) e, g)
