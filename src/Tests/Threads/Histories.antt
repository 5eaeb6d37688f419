-- ===== src/Tests/Threads/Histories.antt =====
-- The theorems about returns and calls in order, at short histories of a queue with two slots.
use nure_queue.Atomic.Exact.{ExactTrace}
use nure_queue.Atomic.{Status, Atomic, Event, AtomicTrace, answered}
use nure_queue.System.{Step, Trace}
use nure_queue.System.Linear.{linearizable}
use nure_queue.Thread.{Reply, done, flag, option, pushed, rejected, pop_tail}
use nure_queue.Slot.{read_value}
use nure_queue.System.Clients.{push_never_fails, pop_never_none}
use nure_queue.Common.{zero, suc}
use nure_queue.Atomic.Account.{sum_below, weight, in_call, in_reply, passed, given_back}
use nure_queue.System.Account.{entry-uses, all_accounted}
use nure_queue.Common.{Bool}
use nure_queue.Common.{◌+◌, ◌<◌}
use nure_queue.Solo.{call as solo_call}
use nure_queue.Common.{
  none, List, [], ◌∷◌, length, ℕ, ◌≤◌, ◌<◌, ◌≡◌, ◌≢◌, refl, true, false, arith, ℕ_discrete,
}
use nure_queue.Common.{some, ap, subst, ◌∙◌}
use nure_queue.Fifo
use nure_queue.Queue.{Queue}
use nure_queue.Solo.Run.{enough}
use nure_queue.Drop.{drop}
use nure_queue.Drop.All.{Vacant}
use nure_queue.System.Invariant.Owns.{uses}
use nure_queue.System.Quiet.{quiet_drop, quiet_call}
use nure_queue.Target.{index_bits, as_index, wrapping_add}
use nure_queue.Lap.{index_of, next_pos, distance}
use nure_queue.Backoff.{fresh}
use nure_queue.Queue.{fill, empty_queue}
use nure_queue.Slot.{write_value, stamp_load, stamp_store}
use nure_queue.Thread.{Call, entry}
use nure_queue.Thread.Step.{step, after_push_stamp, after_pop_stamp}
use nure_queue.System.{System, moved}
use nure_queue.Tests.{desktop, two_slots-Geometry}
use nure_queue.Tests.Threads.{begin, calls, in_push, next, next-ne, patience, traced}

-- Thread 2 is between the two loads of `is_empty` while thread 0 pushes, and pops after it.
abbrev looked : System ℕ
looked = next (next (next (next (next (next (next (begin (calls Call.is_empty)) 2) 0) 0) 0) 0) 0) 2

abbrev looked_then_pops : System ℕ
looked_then_pops = moved looked 2 (looked.queue, entry Call.pop)

looked_then_pops-Trace :
    Trace desktop 2 3 patience 4
      (calls Call.is_empty)
      ((2, flag false, Call.pop) ∷ [])
      looked_then_pops
unfolding step next ℕ_discrete index_bits index_of next_pos wrapping_add stamp_load stamp_store
    write_value as_index after_push_stamp after_pop_stamp empty_queue fill entry two_slots-Geometry
looked_then_pops-Trace =
    let s1 = next (begin (calls Call.is_empty)) 2 in
    let s2 = next s1 0 in
    let s3 = next s2 0 in
    let s4 = next s3 0 in
    let s5 = next s4 0 in
    let s6 = next s5 0 in
    Trace.next
      (traced {s = s6} 2 (omega arith) (λ _. omega arith)
        (traced {s = s5} 0 (omega arith) (λ _. omega arith)
          (traced {s = s4} 0 (omega arith) (λ _. omega arith)
            (traced {s = s3} 0 (omega arith) (λ _. omega arith)
              (traced {s = s2} 0 (omega arith) (λ _. omega arith)
                (traced {s = s1} 0 (omega arith) (λ _. omega arith)
                  (traced {s = begin (calls Call.is_empty)} 2 (omega arith) (λ _. omega arith)
                    Trace.begin)))))))
      (Step.call 2 (flag false) Call.pop (omega arith) refl)

linearizable_example :
    (xs : List ℕ) × (e : ℕ → Status ℕ) × ExactTrace 2 3
      (calls Call.is_empty)
      ((2, flag false, Call.pop) ∷ [])
      xs
      e
    × ((i : ℕ) (r : Reply ℕ) → i < 3 → looked_then_pops.at i ≡ done r → e i ≡ answered r)
    × (distance desktop 2 4 looked_then_pops.queue.head looked_then_pops.queue.tail ≡ length xs)
    × (length xs ≤ 2)
unfolding step next ℕ_discrete index_bits index_of next_pos wrapping_add stamp_load stamp_store
    write_value as_index after_push_stamp after_pop_stamp empty_queue fill entry two_slots-Geometry
linearizable_example =
    linearizable two_slots-Geometry 3 patience (calls Call.is_empty)
      ((2, flag false, Call.pop) ∷ []) looked_then_pops (omega arith) looked_then_pops-Trace

-- Thread 0 has pushed, and the others have made no access.
abbrev one_pushed : System ℕ
one_pushed = next (next (next (next (next (begin (calls Call.pop)) 0) 0) 0) 0) 0

one_pushed-Trace : Trace desktop 2 3 patience 4 (calls Call.pop) [] one_pushed
unfolding step next ℕ_discrete index_bits index_of next_pos wrapping_add stamp_load stamp_store
    write_value as_index after_push_stamp after_pop_stamp empty_queue fill entry two_slots-Geometry
one_pushed-Trace =
    let s1 = next (begin (calls Call.pop)) 0 in
    let s2 = next s1 0 in
    let s3 = next s2 0 in
    let s4 = next s3 0 in
    traced {s = s4} 0 (omega arith) (λ _. omega arith)
      (traced {s = s3} 0 (omega arith) (λ _. omega arith)
        (traced {s = s2} 0 (omega arith) (λ _. omega arith)
          (traced {s = s1} 0 (omega arith) (λ _. omega arith)
            (traced {s = begin (calls Call.pop)} 0 (omega arith) (λ _. omega arith) Trace.begin))))

one_pushed-quiet : (i : ℕ) → uses (one_pushed.at i) ≡ none
unfolding step ℕ_discrete index_bits index_of next_pos wrapping_add stamp_load stamp_store
    write_value as_index after_push_stamp after_pop_stamp empty_queue fill entry two_slots-Geometry
one_pushed-quiet i =
    let s1 = next (begin (calls Call.pop)) 0 in
    let s2 = next s1 0 in
    let s3 = next s2 0 in
    let s4 = next s3 0 in
    elim (ℕ_discrete 0 i) [
      | yes here ↦ subst (λ j. uses (one_pushed.at j) ≡ none) here refl
      | no other ↦
          ap uses (
            next-ne s4 0 i other
            ∙ next-ne s3 0 i other
            ∙ next-ne s2 0 i other
            ∙ next-ne s1 0 i other
            ∙ next-ne (begin (calls Call.pop)) 0 i other)
          ∙ entry-uses (calls Call.pop i)
    ]

quiet_drop_example :
    (t : Atomic ℕ) × AtomicTrace 2 3 (calls Call.pop) [] t
    × ((i : ℕ) (r : Reply ℕ) → one_pushed.at i ≡ done r → t.status i ≡ answered r)
    × ((q : Queue ℕ) × (drop desktop 2 true one_pushed.queue ≡ some (t.contents, q))
        × ((k : ℕ) → k < 2 → Vacant q k))
unfolding step next ℕ_discrete index_bits index_of next_pos wrapping_add stamp_load stamp_store
    write_value as_index after_push_stamp after_pop_stamp empty_queue fill entry two_slots-Geometry
quiet_drop_example =
    quiet_drop two_slots-Geometry 3 patience (calls Call.pop) [] one_pushed (omega arith)
      one_pushed-Trace one_pushed-quiet

quiet_call_example :
    (t : Atomic ℕ) × AtomicTrace 2 3 (calls Call.pop) [] t
    × ((c : Call ℕ) (flags : List Bool)
        → (q : Queue ℕ) × (solo_call desktop 2 (enough flags) flags c one_pushed.queue
            ≡ some ((Fifo.answer 2 c t.contents).0, q)))
unfolding step next ℕ_discrete index_bits index_of next_pos wrapping_add stamp_load stamp_store
    write_value as_index after_push_stamp after_pop_stamp empty_queue fill entry two_slots-Geometry
quiet_call_example =
    quiet_call two_slots-Geometry 3 patience (calls Call.pop) [] one_pushed (omega arith)
      one_pushed-Trace one_pushed-quiet

-- The two threads have pushed, and have returned.
abbrev both_pushed : System ℕ
both_pushed = next (next (next (next (in_push Call.pop) 0) 0) 1) 1

both_pushed-Trace : Trace desktop 2 2 patience 4 (calls Call.pop) [] both_pushed
unfolding step next ℕ_discrete index_bits index_of next_pos wrapping_add stamp_load stamp_store
    write_value as_index after_push_stamp after_pop_stamp empty_queue fill entry two_slots-Geometry
both_pushed-Trace =
    let s1 = next (begin (calls Call.pop)) 0 in
    let s2 = next s1 0 in
    let s3 = next s2 1 in
    let s4 = next s3 0 in
    let s5 = next s4 1 in
    let s6 = next s5 1 in
    let s7 = next s6 1 in
    let s8 = next s7 1 in
    let s9 = next s8 0 in
    let s10 = next s9 0 in
    let s11 = next s10 1 in
    let s12 = next s11 1 in
    traced {s = s11} 1 (omega arith) (λ _. omega arith)
      (traced {s = s10} 1 (omega arith) (λ _. omega arith)
        (traced {s = s9} 0 (omega arith) (λ _. omega arith)
          (traced {s = s8} 0 (omega arith) (λ _. omega arith)
            (traced {s = s7} 1 (omega arith) (λ _. omega arith)
              (traced {s = s6} 1 (omega arith) (λ _. omega arith)
                (traced {s = s5} 1 (omega arith) (λ _. omega arith)
                  (traced {s = s4} 1 (omega arith) (λ _. omega arith)
                    (traced {s = s3} 0 (omega arith) (λ _. omega arith)
                      (traced {s = s2} 1 (omega arith) (λ _. omega arith)
                        (traced {s = s1} 0 (omega arith) (λ _. omega arith)
                          (traced {s = begin (calls Call.pop)} 0 (omega arith) (λ _. omega arith)
                            (Trace.begin))))))))))))

both_pushed-done : (i : ℕ) → i < 2 → both_pushed.at i ≡ done pushed
unfolding step next ℕ_discrete index_bits index_of next_pos wrapping_add stamp_load stamp_store
    write_value as_index after_push_stamp after_pop_stamp empty_queue fill entry two_slots-Geometry
both_pushed-done zero lt = refl
both_pushed-done (suc zero) lt = refl
both_pushed-done (suc (suc i)) lt = absurd (omega arith)

all_accounted_example :
    (vs : List ℕ) × (q : Queue ℕ) × (drop desktop 2 true both_pushed.queue ≡ some (vs, q))
    × ((w : ℕ → ℕ)
        → sum_below 2 (λ i. in_call w (calls Call.pop i)) + passed w []
          ≡ given_back w [] + sum_below 2 (λ i. in_reply w pushed) + weight w vs)
unfolding step next ℕ_discrete index_bits index_of next_pos wrapping_add stamp_load stamp_store
    write_value as_index after_push_stamp after_pop_stamp empty_queue fill entry two_slots-Geometry
all_accounted_example =
    all_accounted two_slots-Geometry 2 patience (calls Call.pop) [] both_pushed (λ i. pushed)
      (omega arith) both_pushed-Trace both_pushed-done

-- Thread 0 pops what it has pushed, and pushes again.
abbrev pops_then : System ℕ
pops_then = moved both_pushed 0 (both_pushed.queue, entry Call.pop)

abbrev recycled : System ℕ
recycled =
    let s = next (next (next (next (next pops_then 0) 0) 0) 0) 0 in
    moved s 0 (s.queue, entry (Call.push 7))

abbrev recycling : List (Event ℕ)
recycling = (0, option (some 0), Call.push 7) ∷ (0, pushed, Call.pop) ∷ []

recycled-Trace : Trace desktop 2 2 patience 4 (calls Call.pop) recycling recycled
unfolding step next ℕ_discrete index_bits index_of next_pos wrapping_add stamp_load stamp_store
    write_value read_value as_index after_push_stamp after_pop_stamp empty_queue fill entry
    two_slots-Geometry
recycled-Trace =
    let s0 = pops_then in
    let s1 = next s0 0 in
    let s2 = next s1 0 in
    let s3 = next s2 0 in
    let s4 = next s3 0 in
    let s5 = next s4 0 in
    Trace.next
      (traced {s = s4} 0 (omega arith) (λ _. omega arith)
        (traced {s = s3} 0 (omega arith) (λ _. omega arith)
          (traced {s = s2} 0 (omega arith) (λ _. omega arith)
            (traced {s = s1} 0 (omega arith) (λ _. omega arith)
              (traced {s = s0} 0 (omega arith) (λ _. omega arith)
                (Trace.next both_pushed-Trace (Step.call 0 pushed Call.pop (omega arith) refl)))))))
      (Step.call 0 (option (some 0)) (Call.push 7) (omega arith) refl)

push_never_fails_example : recycled.at 0 ≢ done (rejected 7)
unfolding step next ℕ_discrete index_bits index_of next_pos wrapping_add stamp_load stamp_store
    write_value as_index after_push_stamp after_pop_stamp empty_queue fill entry two_slots-Geometry
push_never_fails_example =
    push_never_fails two_slots-Geometry 2 patience (calls Call.pop) recycling recycled (omega arith)
      recycled-Trace (omega arith) 0 (omega arith) 7

-- Thread 1 has pushed and pops, behind thread 0, which has not stored its stamp.
abbrev behind : System ℕ
behind = next (next (in_push Call.pop) 1) 1

abbrev waiting : System ℕ
waiting = next (next (moved behind 1 (behind.queue, entry Call.pop)) 1) 1

waiting-Trace : Trace desktop 2 2 patience 4 (calls Call.pop) ((1, pushed, Call.pop) ∷ []) waiting
unfolding step next ℕ_discrete index_bits index_of next_pos wrapping_add stamp_load stamp_store
    write_value as_index after_push_stamp after_pop_stamp empty_queue fill entry two_slots-Geometry
waiting-Trace =
    let s1 = next (begin (calls Call.pop)) 0 in
    let s2 = next s1 0 in
    let s3 = next s2 1 in
    let s4 = next s3 0 in
    let s5 = next s4 1 in
    let s6 = next s5 1 in
    let s7 = next s6 1 in
    let s8 = next s7 1 in
    let s9 = next s8 1 in
    let s10 = next s9 1 in
    let published : Trace desktop 2 2 patience 4 (calls Call.pop) [] behind =
      traced {s = s9} 1 (omega arith) (λ _. omega arith)
        (traced {s = s8} 1 (omega arith) (λ _. omega arith)
          (traced {s = s7} 1 (omega arith) (λ _. omega arith)
            (traced {s = s6} 1 (omega arith) (λ _. omega arith)
              (traced {s = s5} 1 (omega arith) (λ _. omega arith)
                (traced {s = s4} 1 (omega arith) (λ _. omega arith)
                  (traced {s = s3} 0 (omega arith) (λ _. omega arith)
                    (traced {s = s2} 1 (omega arith) (λ _. omega arith)
                      (traced {s = s1} 0 (omega arith) (λ _. omega arith)
                        (traced {s = begin (calls Call.pop)} 0 (omega arith) (λ _. omega arith)
                          (Trace.begin)))))))))) in
    let t0 = moved behind 1 (behind.queue, entry Call.pop) in
    let t1 = next t0 1 in
    let t2 = next t1 1 in
    traced {s = t1} 1 (omega arith) (λ _. omega arith)
      (traced {s = t0} 1 (omega arith) (λ _. omega arith)
        (Trace.next published (Step.call 1 pushed Call.pop (omega arith) refl)))

pop_never_none_example :
    (step desktop 2 false waiting.queue (pop_tail fresh 0)).1 ≢ done (option none)
unfolding step next ℕ_discrete index_bits index_of next_pos wrapping_add stamp_load stamp_store
    write_value as_index after_push_stamp after_pop_stamp empty_queue fill entry two_slots-Geometry
pop_never_none_example =
    pop_never_none two_slots-Geometry 2 patience (calls Call.pop) ((1, pushed, Call.pop) ∷ [])
      waiting (omega arith) waiting-Trace (omega arith) 1 false fresh 0 (omega arith) (omega arith)
      refl
