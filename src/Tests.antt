-- ===== src/Tests.antt =====
-- Runs of the model at fixed inputs, and the theorems at inputs that meet their hypotheses.
mod Threads
mod Cells
use nure_queue.Common.{
  ℕ, ◌+◌, ◌^◌, ◌≤◌, ◌<◌, ◌≡◌, refl, Bool, true, false, List, [], ◌∷◌, Option, none, some, inl,
  arith, ℕ_discrete,
}
use nure_queue.Target.{Build, IsTarget, index_bits, isize_max, as_index, wrapping_add, wrapping_sub}
use nure_queue.Lap.{one_lap_for, index_of, next_pos, distance}
use nure_queue.Lap.OneLap.{one_lap_for_lem}
use nure_queue.Lap.Geometry.{Geometry}
use nure_queue.Backoff.{hints, spin, snooze}
use nure_queue.Backoff.Schedule.{after, mixed, spin_schedule, snooze_schedule, mixed_bounds}
use nure_queue.Queue.{Queue, fill, empty_queue, new}
use nure_queue.Solo.Fresh.{new_fresh}
use nure_queue.Lap.Ticket.{position}
use nure_queue.Lap.Distance.{distance-position}
use nure_queue.Thread.{Reply, Call, pushed, rejected, option, flag, count}
use nure_queue.Thread.Step.{step, after_push_stamp, after_pop_stamp}
use nure_queue.Slot.{write_value, read_value, replace_value, stamp_load, stamp_store}
use nure_queue.Fifo
use nure_queue.Solo.{run, call}
use nure_queue.Solo.Run.{enough}
use nure_queue.Solo.Holds.{Holds, empty_queue-Holds}
use nure_queue.Solo.Refine.{call_refines}
use nure_queue.Drop.{drop}
use nure_queue.Drop.All.{Vacant, drop_lem}
use nure_queue.Differential.{check_ops}
use nure_queue.Differential.Drops.{check_drops, check_drops_succeeds}
use nure_queue.Differential.Passes.{check_ops_succeeds}
use nure_queue.Differential.Fuzz.{Op, fuzz_target, fuzz_target_succeeds}
use nure_queue.Solo.RoundTrip.{push_all, pop_all, pop_all-push_all}

abbrev pub desktop : Build
desktop = record { loom = false; std = false; atomic64 = true; pointer_width = 64 }

desktop-IsTarget : IsTarget desktop
desktop-IsTarget = omega arith

abbrev pub two_slots : Queue ℕ
two_slots = empty_queue desktop 2 4

pub two_slots-Geometry : Geometry desktop 2 4
unfolding index_bits
two_slots-Geometry = record {
  target = desktop-IsTarget;
  log = 2;
  laps = 2 ^ 62;
  power = refl;
  log-le = omega arith;
  above = omega arith;
  cap_pos = omega arith;
  words = refl;
  laps-le = omega arith;
  addressable = omega arith;
}

one_lap_of_four : one_lap_for 64 4 ≡ some 8
unfolding one_lap_for
one_lap_of_four = refl

-- The operations of tests/loom.rs, with a spurious failure in each.
abbrev script : List (Call ℕ × List Bool)
script =
    (Call.is_empty, [])
    ∷ (Call.push 10, false ∷ false ∷ true ∷ [])
    ∷ (Call.push 20, [])
    ∷ (Call.len, [])
    ∷ (Call.pop, false ∷ false ∷ true ∷ [])
    ∷ (Call.force_push 30, [])
    ∷ (Call.is_full, [])
    ∷ (Call.push 60, [])
    ∷ (Call.force_push 60, false ∷ false ∷ true ∷ [])
    ∷ (Call.pop, [])
    ∷ (Call.pop, [])
    ∷ (Call.pop, [])
    ∷ []

replies : List (Call ℕ × List Bool) → Queue ℕ → List (Option (Reply ℕ))
replies [] q = []
replies ((c, flags) ∷ cs) q = elim (call desktop 2 (enough flags) flags c q) [
  | none ↦ none ∷ []
  | some (r, q') ↦ some r ∷ replies cs q'
]

replies_of_script :
    replies script two_slots
    ≡ some (flag true)
      ∷ some pushed
      ∷ some pushed
      ∷ some (count 2)
      ∷ some (option (some 10))
      ∷ some (option none)
      ∷ some (flag true)
      ∷ some (rejected 60)
      ∷ some (option (some 20))
      ∷ some (option (some 30))
      ∷ some (option (some 60))
      ∷ some (option none)
      ∷ []
unfolding replies call run step empty_queue ℕ_discrete index_bits index_of next_pos distance
    wrapping_add wrapping_sub write_value read_value replace_value stamp_load stamp_store as_index
    spin snooze after_push_stamp after_pop_stamp fill
replies_of_script = refl

one_lap_for_lem_example :
    (k : ℕ) × (one_lap_for 64 4 ≡ some (2 ^ k))
    × (1 ≤ k)
    × (4 < 2 ^ k)
    × ((j : ℕ) → 4 < 2 ^ j → k ≤ j)
one_lap_for_lem_example = one_lap_for_lem 64 4 (omega arith) (omega arith) (omega arith)

call_refines_example :
    (h : ℕ) × (q : Queue ℕ) × (call desktop 2 11 (true ∷ []) (Call.push 7) two_slots
      ≡ some ((Fifo.answer 2 (Call.push 7) []).0, q))
    × Holds two_slots-Geometry h (Fifo.answer 2 (Call.push 7) []).1 q
call_refines_example =
    call_refines two_slots-Geometry 11 (true ∷ []) (Call.push 7) []
      (empty_queue-Holds two_slots-Geometry ℕ) (omega arith)

drop_lem_example :
    (q : Queue ℕ) × (drop desktop 2 true two_slots ≡ some ([], q)) × ((i : ℕ) → i < 2 → Vacant q i)
drop_lem_example = drop_lem two_slots-Geometry (empty_queue-Holds two_slots-Geometry ℕ)

check_ops_succeeds_example : check_ops desktop 2 script ≡ true
unfolding isize_max
check_ops_succeeds_example =
    check_ops_succeeds 2 script desktop-IsTarget (omega arith) (omega arith)

spin_schedule_example : (spin desktop (after (spin desktop) 7)).1 ≡ hints 64
spin_schedule_example = spin_schedule desktop 7

snooze_schedule_example : (snooze desktop (after (snooze desktop) 9)).1 ≡ hints 256
snooze_schedule_example = snooze_schedule desktop 9

mixed_bounds_example : (mixed desktop (true ∷ false ∷ true ∷ [])).spins ≤ 10
mixed_bounds_example = mixed_bounds desktop (true ∷ false ∷ true ∷ [])

new_fresh_example :
    (q : Queue ℕ) × (new desktop 2 ≡ some q)
    × (q.head ≡ 0)
    × (q.tail ≡ 0)
    × ((i : ℕ) → i < 2 → q.buffer i ≡ some (record { stamp = i; value = none }))
    × ((i : ℕ) → 2 ≤ i → q.buffer i ≡ none)
    × ((c : Call ℕ) (flags : List Bool)
        → (q' : Queue ℕ) × (call desktop 2 (enough flags) flags c q
            ≡ some ((Fifo.answer 2 c []).0, q')))
unfolding isize_max
new_fresh_example = new_fresh desktop 2 desktop-IsTarget (omega arith) (omega arith)

distance-position_example :
    distance desktop 2 4 (position two_slots-Geometry 7) (position two_slots-Geometry (7 + 2)) ≡ 2
distance-position_example = distance-position two_slots-Geometry 7 2 (omega arith)

check_drops_succeeds_example : check_drops desktop 2 (λ i. true ∷ []) script ≡ true
unfolding isize_max
check_drops_succeeds_example =
    check_drops_succeeds 2 (λ i. true ∷ []) script desktop-IsTarget (omega arith) (omega arith)

-- The fuzz target, with a spurious failure in the last operation.
fuzz_target_succeeds_example :
    fuzz_target desktop ((Op.push 1, []) ∷ (Op.force_push 2, []) ∷ (Op.pop, false ∷ true ∷ []) ∷ [])
    ≡ true
fuzz_target_succeeds_example =
    fuzz_target_succeeds
      ((Op.push 1, []) ∷ (Op.force_push 2, []) ∷ (Op.pop, false ∷ true ∷ []) ∷ []) desktop-IsTarget

pop_all-push_all_example :
    (q q' : Queue ℕ) × (push_all desktop 2 ((5, true ∷ []) ∷ (6, []) ∷ []) two_slots ≡ some q)
    × (pop_all desktop 2 ([] ∷ (true ∷ []) ∷ []) q ≡ some (5 ∷ 6 ∷ [], q'))
pop_all-push_all_example =
    pop_all-push_all two_slots-Geometry ((5, true ∷ []) ∷ (6, []) ∷ []) ([] ∷ (true ∷ []) ∷ [])
      (omega arith) refl
