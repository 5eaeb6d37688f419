-- ===== src/Tests/Cells.antt =====
-- A loom slot whose cell is the content itself.
use nure_queue.Common.{ℕ, ◌≡◌, refl, List, [], ◌∷◌, none, some}
use nure_queue.Slot
use nure_queue.Slot.{Slot}
use nure_queue.Slot.Loom.{UnsafeCell, IsLawful, LoomSlot}
use nure_queue.Slot.Loom.Same.{
  Access, write, replace, read, load, store, Result, nothing, value, stamp, accesses, loom_accesses,
  Same, loom_agrees,
}

abbrev plain : UnsafeCell
plain = record { Cell = λ X. X; with = λ X B c f. f c; with_mut = λ X B c f. f c }

abbrev plain-IsLawful : IsLawful plain
plain-IsLawful = record {
  content = λ X c. c;
  with_lem = λ X B c f. refl;
  with_mut-result = λ X B c f. refl;
  with_mut-content = λ X B c f. refl;
}

abbrev fresh_slot : Slot ℕ
fresh_slot = record { stamp = 0; value = none }

abbrev fresh_loom : LoomSlot plain ℕ
fresh_loom = record { stamp = 0; value = none }

-- A push, a force_push and a pop.
abbrev calls : List (Access ℕ)
calls = load ∷ write 7 ∷ store 1 ∷ load ∷ replace 8 ∷ store 5 ∷ load ∷ read ∷ store 8 ∷ []

abbrev results : List (Result ℕ)
results =
    stamp 0 ∷ nothing ∷ nothing ∷ stamp 1 ∷ value 7 ∷ nothing ∷ stamp 5 ∷ value 8 ∷ nothing ∷ []

calls_run : accesses calls fresh_slot ≡ some (results, record { stamp = 8; value = none })
unfolding accesses Slot.write_value Slot.read_value Slot.replace_value Slot.stamp_load
    Slot.stamp_store
calls_run = refl

loom_agrees_example :
    (m : LoomSlot plain ℕ) × (loom_accesses plain calls fresh_loom ≡ some (results, m))
    × Same plain-IsLawful (record { stamp = 8; value = none }) m
loom_agrees_example =
    loom_agrees plain-IsLawful calls fresh_slot fresh_loom results
      (record { stamp = 8; value = none }) (refl, λ v e. cc e) calls_run
