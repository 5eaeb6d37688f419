-- ===== src/Tests/Threads/Races.antt =====
-- Two accesses to the payload of one slot, by a push and by a pop of another thread.
use nure_queue.Common.{ℕ, ◌<◌, ◌≡◌, refl, true, false, arith, ℕ_discrete}
use nure_queue.Target.{index_bits, as_index, wrapping_add}
use nure_queue.Lap.{index_of, next_pos}
use nure_queue.Queue.{fill, empty_queue}
use nure_queue.Slot.{write_value, stamp_load, stamp_store}
use nure_queue.Thread.{Call, entry}
use nure_queue.Thread.Step.{step, after_push_stamp, after_pop_stamp}
use nure_queue.System.{System, relies, Step}
use nure_queue.System.Order.{Clocks, effect, tick, Ordered}
use nure_queue.System.Order.Races.{no_race}
use nure_queue.Tests.{desktop, two_slots-Geometry}
use nure_queue.Tests.Threads.{patience, next, begin, calls}

abbrev Timed : Type 0
Timed = System ℕ × Clocks

-- One access of thread `i`, and the clocks after it.
abbrev and_then : Timed → ℕ → Timed
and_then (s, c) i = (next s i, tick desktop s.queue.one_lap i (effect (s.at i)) c)

abbrev OrderedAt : Timed → Type 0
OrderedAt (s, c) = Ordered desktop 2 3 patience 4 (calls Call.pop) s c

timed :
    (t : Timed) (i : ℕ)
    → i < 3
    → (relies (t.0.at i) ≡ true → t.0.age i < patience)
    → OrderedAt t
    → OrderedAt (and_then t i)
unfolding next
timed t i lt soon r = Ordered.later r (Step.move i false lt soon)

abbrev new_timed : Timed
new_timed =
    (begin (calls Call.pop), record { accesses = λ k. 0; known = λ i k. 0; released = λ k. 0 })

-- Thread 0 has pushed, and thread 2 has gained the slot.
abbrev gained : Timed
gained =
    and_then
      (and_then
        (and_then (and_then (and_then (and_then (and_then (and_then (new_timed) 0) 0) 0) 0) 0) 2) 2)
      2

gained-OrderedAt : OrderedAt gained
unfolding step next ℕ_discrete index_bits index_of next_pos wrapping_add stamp_load stamp_store
    write_value as_index after_push_stamp after_pop_stamp empty_queue fill entry two_slots-Geometry
gained-OrderedAt =
    let t1 = and_then new_timed 0 in
    let t2 = and_then t1 0 in
    let t3 = and_then t2 0 in
    let t4 = and_then t3 0 in
    let t5 = and_then t4 0 in
    let t6 = and_then t5 2 in
    let t7 = and_then t6 2 in
    let t8 = and_then t7 2 in
    timed t7 2 (omega arith) (λ _. omega arith)
      (timed t6 2 (omega arith) (λ _. omega arith)
        (timed t5 2 (omega arith) (λ _. omega arith)
          (timed t4 0 (omega arith) (λ _. omega arith)
            (timed t3 0 (omega arith) (λ _. omega arith)
              (timed t2 0 (omega arith) (λ _. omega arith)
                (timed t1 0 (omega arith) (λ _. omega arith)
                  (timed new_timed 0 (omega arith) (λ _. omega arith) (Ordered.start))))))))

no_race_example : gained.1.known 2 (index_of desktop 4 0) ≡ gained.1.accesses (index_of desktop 4 0)
unfolding step next ℕ_discrete index_bits index_of next_pos wrapping_add stamp_load stamp_store
    write_value as_index after_push_stamp after_pop_stamp empty_queue fill entry two_slots-Geometry
no_race_example =
    no_race two_slots-Geometry 3 patience (calls Call.pop) gained.0 gained.1 (omega arith)
      gained-OrderedAt 2 0 refl

-- The push has made one access.
one_access : gained.1.accesses 0 ≡ 1
unfolding step next ℕ_discrete index_bits index_of next_pos wrapping_add stamp_load stamp_store
    write_value as_index after_push_stamp after_pop_stamp empty_queue fill entry two_slots-Geometry
one_access = refl
