-- ===== src/System/Clients.antt =====
-- Clients as those of tests/repro583.rs: with any interleaving, a value that a thread has room for is never
-- given back to it, and a value that it waits for is there.
use nure_queue.Common.{ℕ, ◌+◌, ◌-◌, ◌*◌, ◌≤◌, ◌<◌, ◌≡◌, ◌≢◌, subst, Bool, List, none, arith}
use nure_queue.Target.{Build}
use nure_queue.Lap.Geometry.{Geometry}
use nure_queue.Backoff.{Backoff}
use nure_queue.Thread.{rejected, option, done, pop_tail, Call}
use nure_queue.Thread.Step.{step}
use nure_queue.Atomic.{Event}
use nure_queue.Atomic.Clients.{Covered, Backed, Covered-accepts, Backed-pop}
use nure_queue.System.{System, Reach, start, later, Trace, begin, next}
use nure_queue.System.Invariant.Defs.{Local}
use nure_queue.System.Invariant.Contents.{length-contents}
use nure_queue.System.Answers.{none_is_empty, memory_count}
use nure_queue.System.Linear.{Trace-Inv}

module _ {A : Type 0} {b : Build} {N L : ℕ} (g : Geometry b N L) where
  Trace-Reach :
      {n patience : ℕ} {first : ℕ → Call A} {h : List (Event A)} {s : System A}
      → Trace b N n patience L first h s
      → Reach b N n patience L first s
  Trace-Reach begin = start
  Trace-Reach (next r w) = later (Trace-Reach r) w

  -- The client of the first test of tests/repro583.rs, with any number of threads and in any interleaving:
  -- where at every call the values that the threads have passed to `push` and `force_push` so far are at
  -- most N more than those that the replies so far have given back, no `push` returns its value. The
  -- condition: while a thread works on a position that it has loaded, the threads make fewer than
  -- `patience` accesses, and these with three laps of the buffer are no more than the positions of the
  -- words.
  pub push_never_fails :
      (n patience : ℕ) (first : ℕ → Call A) (h : List (Event A)) (s : System A)
      → patience + 3 * N ≤ N * g.laps
      → Trace b N n patience L first h s
      → Covered N n first h
      → (i : ℕ) → i < n
      → (v : A) → s.at i ≢ done (rejected v)
  push_never_fails n patience first h s far r covered i lt v at =
      let (x, inv, trace) = Trace-Inv g n patience far r in
      Covered-accepts v trace covered i lt (subst (Local g x (s.age i) i) at (inv.threads i))

  -- The client of the second test of tests/repro583.rs, with any number of threads and in any
  -- interleaving: where at every call the calls so far of `pop` and `force_push` are at most the replies
  -- so far of a `push` that has put its value in, no `pop` returns None. The condition: while a thread
  -- works on a position that it has loaded, the threads make fewer than `patience` accesses, and these
  -- with three laps of the buffer are no more than the positions of the words.
  pub pop_never_none :
      (n patience : ℕ) (first : ℕ → Call A) (h : List (Event A)) (s : System A)
      → patience + 3 * N ≤ N * g.laps
      → Trace b N n patience L first h s
      → Backed N n first h
      → (i : ℕ) (f : Bool) (k : Backoff) (head : ℕ) → i < n
      → s.age i < patience
      → s.at i ≡ pop_tail k head
      → (step b N f s.queue (pop_tail k head)).1 ≢ done (option none)
  pop_never_none n patience first h s far r backed i f k head lt soon at gives =
      let (x, inv, trace) = Trace-Inv g n patience far r in
      let v = inv.memory in
      let (_, _, st) = subst (Local g x (s.age i) i) at (inv.threads i) in
      omega (
        arith,
        Backed-pop trace backed i lt st,
        length-contents x v.known v.ordered,
        memory_count g v (x.puts - x.takes) (omega (arith, v.ordered)) (omega (arith, v.within)),
        none_is_empty g n patience first s far (Trace-Reach r) i f soon k head at gives,
      )
