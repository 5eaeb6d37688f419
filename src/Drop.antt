-- ===== src/Drop.antt =====
-- `Drop for Queue` of src/lib.rs.
pub mod All
use nure_queue.Common.{
  ℕ, zero, suc, ◌+◌, Bool, List, [], ◌∷◌, Option, none, some, ltb, if◌then◌else◌,
}
use nure_queue.Common.Family.{update}
use nure_queue.Target.{Build, wrapping_add, wrapping_sub}
use nure_queue.Lap.{index_of, distance}
use nure_queue.Slot.{drop_value}
use nure_queue.Queue.{Queue}

-- `if hix + i < N { hix + i } else { hix + i - N }`
unfoldable pub drop_index : Build → ℕ → ℕ → ℕ → ℕ
unfolding wrapping_add wrapping_sub
drop_index b N hix i =
    let sum = wrapping_add b.pointer_width hix i in
    if ltb sum N then sum else wrapping_sub b.pointer_width sum N

module _ {ℓ} {A : Type ℓ} where
  -- `get_unchecked_mut(index).assume_init_mut().drop_value()`: the value whose destructor runs; `none` is
  -- undefined behaviour.
  pub drop_at : ℕ → Queue A → Option (A × Queue A)
  drop_at i q = elim (q.buffer i) [
    | none ↦ none
    | some s ↦ elim (drop_value s) [
      | none ↦ none
      | some (v, s') ↦ some (v, record q { buffer = update q.buffer i (some s') })
    ]
  ]

  also : A → Option (List A × Queue A) → Option (List A × Queue A)
  also v rest = elim rest [ none ↦ none | some (vs, q) ↦ some (v ∷ vs, q) ]

module _ {ℓ} {A : Type ℓ} (b : Build) (N : ℕ) where
  -- `for i in 0..len`, by the rounds that are left: the values whose destructors have run, in order, and
  -- the memory after them.
  pub drop_loop : ℕ → ℕ → ℕ → Queue A → Option (List A × Queue A)
  unfolding also
  drop_loop hix zero i q = some ([], q)
  drop_loop hix (suc rounds) i q = elim (drop_at (drop_index b N hix i) q) [
    | none ↦ none
    | some (v, q') ↦ also v (drop_loop hix rounds (i + 1) q')
  ]

  -- `drop`; the flag is `needs_drop::<T>()`.
  pub drop : Bool → Queue A → Option (List A × Queue A)
  unfolding drop_loop
  drop needs_drop q =
      if needs_drop
      then drop_loop (index_of b q.one_lap q.head) (distance b N q.one_lap q.head q.tail) 0 q
      else some ([], q)
