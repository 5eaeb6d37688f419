-- ===== src/Tests/Threads/Flags.antt =====
-- `is_empty` and `is_full` of a third thread, after two pushes.
use nure_queue.Common.{ℕ, refl, true, false, arith, ℕ_discrete}
use nure_queue.Target.{index_bits, as_index, wrapping_add}
use nure_queue.Lap.{index_of, next_pos}
use nure_queue.Queue.{fill, empty_queue}
use nure_queue.Slot.{write_value, stamp_load, stamp_store}
use nure_queue.Thread.{Call, entry}
use nure_queue.Thread.Step.{step, after_push_stamp, after_pop_stamp}
use nure_queue.System.{System}
use nure_queue.Tests.{desktop, two_slots-Geometry}
use nure_queue.Tests.Threads.{Reached, access, calls, in_push, in_push-Reached, next, patience}
use nure_queue.System.Flags.{TellsEmpty, TellsFull, is_empty_says, is_full_says}

-- Thread 2 has loaded the head.
abbrev asks_empty : System ℕ
asks_empty = next (in_push Call.is_empty) 2

asks_empty-Reached : Reached (calls Call.is_empty) asks_empty
unfolding step next ℕ_discrete index_bits index_of next_pos wrapping_add stamp_load stamp_store
    write_value as_index after_push_stamp after_pop_stamp empty_queue fill entry two_slots-Geometry
asks_empty-Reached = access 2 (omega arith) (λ _. omega arith) (in_push-Reached Call.is_empty)

is_empty_says_example : TellsEmpty desktop 2 4 asks_empty.queue 0 false
unfolding step next ℕ_discrete index_bits index_of next_pos wrapping_add stamp_load stamp_store
    write_value as_index after_push_stamp after_pop_stamp empty_queue fill entry two_slots-Geometry
is_empty_says_example =
    is_empty_says two_slots-Geometry 3 patience (calls Call.is_empty) asks_empty (omega arith)
      asks_empty-Reached 2 false (omega arith) 0 false refl refl

-- Thread 2 has loaded the tail.
abbrev asks_full : System ℕ
asks_full = next (in_push Call.is_full) 2

asks_full-Reached : Reached (calls Call.is_full) asks_full
unfolding step next ℕ_discrete index_bits index_of next_pos wrapping_add stamp_load stamp_store
    write_value as_index after_push_stamp after_pop_stamp empty_queue fill entry two_slots-Geometry
asks_full-Reached = access 2 (omega arith) (λ _. omega arith) (in_push-Reached Call.is_full)

is_full_says_example : TellsFull desktop 2 4 asks_full.queue 4 true
unfolding step next ℕ_discrete index_bits index_of next_pos wrapping_add stamp_load stamp_store
    write_value as_index after_push_stamp after_pop_stamp empty_queue fill entry two_slots-Geometry
is_full_says_example =
    is_full_says two_slots-Geometry 3 patience (calls Call.is_full) asks_full (omega arith)
      asks_full-Reached 2 false (omega arith) 4 true refl refl
