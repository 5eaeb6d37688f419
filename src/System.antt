-- ===== src/System.antt =====
-- Any number of threads in one queue: their accesses to its memory, interleaved in any order.
pub mod Invariant
pub mod Safety
pub mod Answers
pub mod Flags
pub mod Linear
pub mod Quiet
pub mod Account
pub mod Alone
pub mod Clients
pub mod Stall
pub mod Blocked
pub mod Overflow
pub mod Order
use nure_queue.Atomic.{Event}
use nure_queue.Common.{List, [], ◌∷◌, ◌++◌, ℕ, ◌+◌, ◌<◌, ◌≡◌, Bool, true, false, if◌then◌else◌}
use nure_queue.Common.Family.{update}
use nure_queue.Target.{Build}
use nure_queue.Queue.{Queue, empty_queue}
use nure_queue.Thread.{
  Reply, Point, push_stamp, push_claim, full_head, ring_claim, pop_stamp, pop_claim, pop_tail,
  empty_tail, full_check, len_head, len_again, done, Call, entry,
}
use nure_queue.Thread.Step.{step}

-- `age` counts the accesses of all threads since a thread last loaded a position.
pub record System (A : Type 0) : Type 0 where
  pub queue : Queue A
  pub at : ℕ → Point A
  pub age : ℕ → ℕ

module _ {A : Type 0} where
  -- Points where a thread has just loaded the position that it works on.
  abbrev pub loads : Point A → Bool
  loads (push_stamp c v k tail) = true
  loads (pop_stamp k head) = true
  loads (empty_tail head) = true
  loads (full_check tail) = true
  loads (len_head tail) = true
  loads p = false

  -- Points where a thread works on a position that it loaded and has not taken.
  abbrev pub relies : Point A → Bool
  relies (push_stamp c v k tail) = true
  relies (push_claim c v k tail) = true
  relies (full_head v k tail) = true
  relies (ring_claim v k tail) = true
  relies (pop_stamp k head) = true
  relies (pop_claim k head) = true
  relies (pop_tail k head) = true
  relies (empty_tail head) = true
  relies (full_check tail) = true
  relies (len_head tail) = true
  relies (len_again tail head) = true
  relies p = false

  abbrev pub next_age : ℕ → Point A → ℕ
  next_age a p = if loads p then 0 else a + 1

  -- The system after thread `i` has gone to point `p` and left the queue `q`.
  abbrev pub moved : System A → ℕ → Queue A × Point A → System A
  moved s i (q, p) = record {
    queue = q;
    at = update s.at i p;
    age = update (λ j. s.age j + 1) i (next_age (s.age i) p);
  }

-- Positions repeat after very many pushes, so a thread that sleeps that long between the load of a
-- position and its compare-exchange would take an old position for the current one. `patience` bounds
-- the accesses that others may make meanwhile.
module _ {A : Type 0} (b : Build) (N n patience : ℕ) where
  pub data Step (s : System A) : System A → Type 0 where
    -- One access of thread `i`; the flag is a spurious failure.
    move :
        (i : ℕ) (f : Bool)
        → i < n
        → (relies (s.at i) ≡ true → s.age i < patience)
        → Step s (moved s i (step b N f s.queue (s.at i)))
    -- A thread that has returned calls a method.
    call :
        (i : ℕ) (r : Reply A) (c : Call A)
        → i < n
        → s.at i ≡ done r
        → Step s (moved s i (s.queue, entry c))

  -- The states that a new queue with the lap `lap` gets into, where thread `i` first calls `first i`.
  pub data Reach (lap : ℕ) (first : ℕ → Call A) : System A → Type 0 where
    start :
        Reach lap first
          (record { queue = empty_queue b N lap; at = λ i. entry (first i); age = λ i. 0 })
    later : {s t : System A} → Reach lap first s → Step s t → Reach lap first t

  -- The calls of a step.
  abbrev pub event : {s t : System A} → Step s t → List (Event A)
  event (move i f lt fresh) = []
  event (call i r c lt e) = (i, r, c) ∷ []

  -- The same states, with the calls up to there, the last one first.
  pub data Trace (lap : ℕ) (first : ℕ → Call A) : List (Event A) → System A → Type 0 where
    begin :
        Trace lap first []
          (record { queue = empty_queue b N lap; at = λ i. entry (first i); age = λ i. 0 })
    next :
        {h : List (Event A)} {s t : System A}
        → Trace lap first h s
        → (w : Step s t) → Trace lap first (event w ++ h) t
