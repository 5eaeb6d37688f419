-- ===== src/Tests/Threads/Reached.antt =====
-- The theorems about the states that a new queue gets into, at states of two threads and a third.
use nure_queue.Thread.{Reply}
use nure_queue.Common.{sym}
use nure_queue.Solo.{run}
use nure_queue.System.Alone.Returns.{returns_alone}
use nure_queue.System.Account.{entry-uses}
use nure_queue.Common.{Bool}
use nure_queue.System.Overflow.{AddsOne, sums_fit}
use nure_queue.Common.{◌+◌, ◌^◌, ◌<◌}
use nure_queue.Solo.{call as solo_call}
use nure_queue.System.Blocked.{Unreleased, push_stalls}
use nure_queue.System.Stall.{Unpublished, pop_stalls}
use nure_queue.Thread.{when_full}
use nure_queue.Common.{
  none, List, [], ◌∷◌, ℕ, ◌≤◌, ◌<◌, ◌≡◌, ◌≢◌, refl, true, false, arith, ℕ_discrete,
}
use nure_queue.Common.{some, ap, subst, ◌∙◌}
use nure_queue.Queue.{Queue}
use nure_queue.System.Invariant.Owns.{uses}
use nure_queue.Target.{index_bits, as_index, wrapping_add, wrapping_sub}
use nure_queue.Lap.{index_of, next_pos, distance}
use nure_queue.Backoff.{fresh}
use nure_queue.Queue.{fill, empty_queue}
use nure_queue.Slot.{write_value, stamp_load, stamp_store}
use nure_queue.Thread.{fault, Call, entry}
use nure_queue.Thread.Step.{step, after_push_stamp, after_pop_stamp}
use nure_queue.System.{System, start}
use nure_queue.System.Safety.{never_faults, slots_exclusive}
use nure_queue.System.Answers.{none_is_empty, rejected_is_full, count_within}
use nure_queue.Tests.{desktop, two_slots-Geometry}
use nure_queue.Tests.Threads.{
  Reached, access, begin, calls, in_push, in_push-Reached, next, next-ne, patience,
}

slots_exclusive_example : index_of desktop 4 0 ≢ index_of desktop 4 1
unfolding step next ℕ_discrete index_bits index_of next_pos wrapping_add stamp_load stamp_store
    write_value as_index after_push_stamp after_pop_stamp empty_queue fill entry two_slots-Geometry
slots_exclusive_example =
    slots_exclusive two_slots-Geometry 3 patience (calls Call.pop) (in_push Call.pop) (omega arith)
      (in_push-Reached Call.pop) 0 1 0 1 (omega arith) refl refl

never_faults_example : (in_push Call.pop).at 1 ≢ fault
unfolding step next ℕ_discrete index_bits index_of next_pos wrapping_add stamp_load stamp_store
    write_value as_index after_push_stamp after_pop_stamp empty_queue fill entry two_slots-Geometry
never_faults_example =
    never_faults two_slots-Geometry 3 patience (calls Call.pop) (in_push Call.pop) (omega arith)
      (in_push-Reached Call.pop) 1

-- Thread 2 has found no value at its position.
abbrev no_value : System ℕ
no_value = next (next (begin (calls Call.pop)) 2) 2

no_value-Reached : Reached (calls Call.pop) no_value
unfolding step next ℕ_discrete index_bits index_of next_pos wrapping_add stamp_load stamp_store
    write_value as_index after_push_stamp after_pop_stamp empty_queue fill entry two_slots-Geometry
no_value-Reached =
    access 2 (omega arith) (λ _. omega arith) (access 2 (omega arith) (λ _. omega arith) (start))

none_is_empty_example : distance desktop 2 4 no_value.queue.head no_value.queue.tail ≡ 0
unfolding step next ℕ_discrete index_bits index_of next_pos wrapping_add stamp_load stamp_store
    write_value as_index after_push_stamp after_pop_stamp empty_queue fill entry two_slots-Geometry
none_is_empty_example =
    none_is_empty two_slots-Geometry 3 patience (calls Call.pop) no_value (omega arith)
      no_value-Reached 2 false (omega arith) fresh 0 refl refl

-- Both pushes have returned, and thread 2 has found its position a lap ahead.
abbrev lap_ahead : System ℕ
lap_ahead = next (next (next (next (next (next (in_push (Call.push 7)) 0) 0) 1) 1) 2) 2

lap_ahead-Reached : Reached (calls (Call.push 7)) lap_ahead
unfolding step next ℕ_discrete index_bits index_of next_pos wrapping_add stamp_load stamp_store
    write_value as_index after_push_stamp after_pop_stamp empty_queue fill entry two_slots-Geometry
lap_ahead-Reached =
    access 2 (omega arith) (λ _. omega arith)
      (access 2 (omega arith) (λ _. omega arith)
        (access 1 (omega arith) (λ _. omega arith)
          (access 1 (omega arith) (λ _. omega arith)
            (access 0 (omega arith) (λ _. omega arith)
              (access 0 (omega arith) (λ _. omega arith) (in_push-Reached (Call.push 7)))))))

rejected_is_full_example : distance desktop 2 4 lap_ahead.queue.head lap_ahead.queue.tail ≡ 2
unfolding step next ℕ_discrete index_bits index_of next_pos wrapping_add stamp_load stamp_store
    write_value as_index after_push_stamp after_pop_stamp empty_queue fill entry two_slots-Geometry
rejected_is_full_example =
    rejected_is_full two_slots-Geometry 3 patience (calls (Call.push 7)) lap_ahead (omega arith)
      lap_ahead-Reached 2 false (omega arith) 7 fresh 4 refl refl

-- Thread 2 counts while the others push.
abbrev counting : System ℕ
counting = next (next (in_push Call.len) 2) 2

counting-Reached : Reached (calls Call.len) counting
unfolding step next ℕ_discrete index_bits index_of next_pos wrapping_add stamp_load stamp_store
    write_value as_index after_push_stamp after_pop_stamp empty_queue fill entry two_slots-Geometry
counting-Reached =
    access 2 (omega arith) (λ _. omega arith)
      (access 2 (omega arith) (λ _. omega arith) (in_push-Reached Call.len))

count_within_example : 2 ≤ 2
unfolding step next ℕ_discrete index_bits index_of next_pos wrapping_add stamp_load stamp_store
    write_value as_index after_push_stamp after_pop_stamp empty_queue fill entry two_slots-Geometry
    distance wrapping_sub
count_within_example =
    count_within two_slots-Geometry 3 patience (calls Call.len) counting (omega arith)
      counting-Reached 2 false (omega arith) 4 0 2 refl refl

-- Thread 0 has taken position 0, and is stopped.
abbrev stopped : System ℕ
stopped = in_push Call.pop

pop_stalls_example :
    (0 < distance desktop 2 4 stopped.queue.head stopped.queue.tail)
    × ((fuel : ℕ) (flags : List Bool)
        → solo_call desktop 2 fuel flags Call.pop stopped.queue ≡ none)
unfolding step next ℕ_discrete index_bits index_of next_pos wrapping_add stamp_load stamp_store
    write_value as_index after_push_stamp after_pop_stamp empty_queue fill entry two_slots-Geometry
pop_stalls_example =
    pop_stalls two_slots-Geometry 3 patience (calls Call.pop) stopped (omega arith)
      (in_push-Reached Call.pop) 0 (Unpublished.writes when_full 0)

-- Thread 2 has loaded the position 4, of the second lap.
abbrev second_lap : System ℕ
second_lap = next (in_push (Call.push 7)) 2

second_lap-Reached : Reached (calls (Call.push 7)) second_lap
unfolding step next ℕ_discrete index_bits index_of next_pos wrapping_add stamp_load stamp_store
    write_value as_index after_push_stamp after_pop_stamp empty_queue fill entry two_slots-Geometry
second_lap-Reached = access 2 (omega arith) (λ _. omega arith) (in_push-Reached (Call.push 7))

sums_fit_example : 4 + 1 < 2 ^ 64
unfolding step next ℕ_discrete index_bits index_of next_pos wrapping_add stamp_load stamp_store
    write_value as_index after_push_stamp after_pop_stamp empty_queue fill entry two_slots-Geometry
sums_fit_example =
    sums_fit two_slots-Geometry 3 patience (calls (Call.push 7)) second_lap (omega arith)
      second_lap-Reached 2 4 (AddsOne.push_test when_full 7 fresh)

-- Thread 1 has loaded the tail before thread 0 has pushed.
abbrev overtaken : System ℕ
overtaken = next (next (next (next (next (next (begin (calls Call.pop)) 1) 0) 0) 0) 0) 0

overtaken-Reached : Reached (calls Call.pop) overtaken
unfolding step next ℕ_discrete index_bits index_of next_pos wrapping_add stamp_load stamp_store
    write_value as_index after_push_stamp after_pop_stamp empty_queue fill entry two_slots-Geometry
overtaken-Reached =
    access 0 (omega arith) (λ _. omega arith)
      (access 0 (omega arith) (λ _. omega arith)
        (access 0 (omega arith) (λ _. omega arith)
          (access 0 (omega arith) (λ _. omega arith)
            (access 0 (omega arith) (λ _. omega arith)
              (access 1 (omega arith) (λ _. omega arith) (start))))))

overtaken-quiet : (j : ℕ) → j ≢ 1 → uses (overtaken.at j) ≡ none
unfolding step ℕ_discrete index_bits index_of next_pos wrapping_add stamp_load stamp_store
    write_value as_index after_push_stamp after_pop_stamp empty_queue fill entry two_slots-Geometry
overtaken-quiet j ne =
    let s1 = next (begin (calls Call.pop)) 1 in
    let s2 = next s1 0 in
    let s3 = next s2 0 in
    let s4 = next s3 0 in
    let s5 = next s4 0 in
    elim (ℕ_discrete 0 j) [
      | yes here ↦ subst (λ i. uses (overtaken.at i) ≡ none) here refl
      | no other ↦
          ap uses (
            next-ne s5 0 j other
            ∙ next-ne s4 0 j other
            ∙ next-ne s3 0 j other
            ∙ next-ne s2 0 j other
            ∙ next-ne s1 0 j other
            ∙ next-ne (begin (calls Call.pop)) 1 j (λ e. ne (sym e)))
          ∙ entry-uses (calls Call.pop j)
    ]

returns_alone_example :
    (r : Reply ℕ) × (q : Queue ℕ) × (run desktop 2 15 (true ∷ []) overtaken.queue (overtaken.at 1)
      ≡ some (r, q))
unfolding step next ℕ_discrete index_bits index_of next_pos wrapping_add stamp_load stamp_store
    write_value as_index after_push_stamp after_pop_stamp empty_queue fill entry two_slots-Geometry
returns_alone_example =
    returns_alone two_slots-Geometry 3 patience (calls Call.pop) overtaken (omega arith)
      overtaken-Reached 1 overtaken-quiet (λ _. omega arith) 15 (true ∷ []) (omega arith)

-- The queue is full, and thread 2 has taken position 0 and is stopped.
abbrev taking : System ℕ
taking = next (next (next (next (next (next (next (in_push Call.pop) 0) 0) 1) 1) 2) 2) 2

taking-Reached : Reached (calls Call.pop) taking
unfolding step next ℕ_discrete index_bits index_of next_pos wrapping_add stamp_load stamp_store
    write_value as_index after_push_stamp after_pop_stamp empty_queue fill entry two_slots-Geometry
taking-Reached =
    access 2 (omega arith) (λ _. omega arith)
      (access 2 (omega arith) (λ _. omega arith)
        (access 2 (omega arith) (λ _. omega arith)
          (access 1 (omega arith) (λ _. omega arith)
            (access 1 (omega arith) (λ _. omega arith)
              (access 0 (omega arith) (λ _. omega arith)
                (access 0 (omega arith) (λ _. omega arith) (in_push-Reached Call.pop)))))))

push_stalls_example :
    (distance desktop 2 4 taking.queue.head taking.queue.tail < 2)
    × ((fuel : ℕ) (flags : List Bool) (u : ℕ)
        → (solo_call desktop 2 fuel flags (Call.push u) taking.queue ≡ none)
          × (solo_call desktop 2 fuel flags (Call.force_push u) taking.queue ≡ none))
unfolding step next ℕ_discrete index_bits index_of next_pos wrapping_add stamp_load stamp_store
    write_value as_index after_push_stamp after_pop_stamp empty_queue fill entry two_slots-Geometry
push_stalls_example =
    push_stalls two_slots-Geometry 3 patience (calls Call.pop) taking (omega arith) taking-Reached 2
      0 Unreleased.reads refl
