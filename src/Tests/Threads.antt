-- ===== src/Tests/Threads.antt =====
-- Two threads in a queue with two slots, step by step.
mod Reached
mod Histories
mod Races
mod Flags
use nure_queue.Atomic.{Atomic, Event, AtomicTrace, answered}
use nure_queue.System.{Step, Trace}
use nure_queue.System.Linear.{linearizable}
use nure_queue.Thread.{Reply, done, option, pushed, rejected, pop_tail}
use nure_queue.Slot.{read_value}
use nure_queue.System.Clients.{push_never_fails, pop_never_none}
use nure_queue.Common.{zero, suc}
use nure_queue.Atomic.Account.{sum_below, weight, in_call, in_reply, passed, given_back}
use nure_queue.Common.{sym}
use nure_queue.Solo.{run}
use nure_queue.System.Alone.Returns.{returns_alone}
use nure_queue.System.Account.{entry-uses, all_accounted}
use nure_queue.Common.{Bool}
use nure_queue.System.Overflow.{AddsOne, sums_fit}
use nure_queue.Common.{◌+◌, ◌^◌, ◌<◌}
use nure_queue.Solo.{call as solo_call}
use nure_queue.System.Stall.{Unpublished, pop_stalls}
use nure_queue.Thread.{when_full}
use nure_queue.Common.{
  none, List, [], ◌∷◌, length, ℕ, ◌≤◌, ◌<◌, ◌≡◌, ◌≢◌, refl, true, false, arith, ℕ_discrete,
}
use nure_queue.Common.{some, ap, subst, ◌∙◌}
use nure_queue.Common.Family.{update, update_ne}
use nure_queue.Fifo
use nure_queue.Queue.{Queue}
use nure_queue.Solo.Run.{enough}
use nure_queue.Drop.{drop}
use nure_queue.Drop.All.{Vacant}
use nure_queue.System.Invariant.Owns.{uses}
use nure_queue.System.Quiet.{quiet_drop, quiet_call}
use nure_queue.Target.{index_bits, as_index, wrapping_add, wrapping_sub}
use nure_queue.Lap.{index_of, next_pos, distance}
use nure_queue.Backoff.{fresh}
use nure_queue.Queue.{fill, empty_queue}
use nure_queue.Slot.{write_value, stamp_load, stamp_store}
use nure_queue.Thread.{fault, Call, entry}
use nure_queue.Thread.Step.{step, after_push_stamp, after_pop_stamp}
use nure_queue.System.{System, relies, moved, Reach, start, later, move}
use nure_queue.System.Safety.{never_faults, slots_exclusive}
use nure_queue.System.Answers.{none_is_empty, rejected_is_full, count_within}
use nure_queue.Tests.{desktop, two_slots, two_slots-Geometry}

abbrev patience : ℕ
patience = 1000

abbrev Reached : (ℕ → Call ℕ) → System ℕ → Type 0
Reached first s = Reach desktop 2 3 patience 4 first s

-- One access of thread `i`.
abbrev next : System ℕ → ℕ → System ℕ
unfolding step
next s i = moved s i (step desktop 2 false s.queue (s.at i))

abbrev begin : (ℕ → Call ℕ) → System ℕ
begin first = record { queue = two_slots; at = λ i. entry (first i); age = λ i. 0 }

access :
    {first : ℕ → Call ℕ} {s : System ℕ} (i : ℕ)
    → i < 3
    → (relies (s.at i) ≡ true → s.age i < patience)
    → Reached first s
    → Reached first (next s i)
unfolding step
access i lt soon r = later r (move i false lt soon)

-- Threads 0 and 1 push, and thread 2 calls `c`. The tail is exchanged by thread 0, and then by thread 1,
-- whose first exchange fails.
abbrev calls : Call ℕ → ℕ → Call ℕ
calls c = update (λ i. Call.push i) 2 c

abbrev in_push : Call ℕ → System ℕ
in_push c = next (next (next (next (next (next (next (next (begin (calls c)) 0) 0) 1) 0) 1) 1) 1) 1

in_push-Reached : (c : Call ℕ) → Reached (calls c) (in_push c)
unfolding step next ℕ_discrete index_bits index_of next_pos wrapping_add stamp_load stamp_store
    write_value as_index after_push_stamp after_pop_stamp empty_queue fill entry two_slots-Geometry
in_push-Reached c =
    access 1 (omega arith) (λ _. omega arith)
      (access 1 (omega arith) (λ _. omega arith)
        (access 1 (omega arith) (λ _. omega arith)
          (access 1 (omega arith) (λ _. omega arith)
            (access 0 (omega arith) (λ _. omega arith)
              (access 1 (omega arith) (λ _. omega arith)
                (access 0 (omega arith) (λ _. omega arith)
                  (access 0 (omega arith) (λ _. omega arith) (start))))))))

traced :
    {n : ℕ} {first : ℕ → Call ℕ} {h : List (Event ℕ)} {s : System ℕ} (i : ℕ)
    → i < n
    → (relies (s.at i) ≡ true → s.age i < patience)
    → Trace desktop 2 n patience 4 first h s
    → Trace desktop 2 n patience 4 first h (next s i)
unfolding step
traced i lt soon r = Trace.next r (Step.move i false lt soon)

next-ne : (s : System ℕ) (i j : ℕ) → i ≢ j → (next s i).at j ≡ s.at j
unfolding next ℕ_discrete
next-ne s i j ne = update_ne s.at (step desktop 2 false s.queue (s.at i)).1 i j ne
