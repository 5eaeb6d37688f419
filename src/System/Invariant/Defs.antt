-- ===== src/System/Invariant/Defs.antt =====
-- What is true of the memory and of each thread, in terms of tickets.
use nure_queue.Atomic.{Status, calling, measured, replacing, answered}
use nure_queue.Thread.Step.Laws.{push_reply}
use nure_queue.Common.{
  zero, suc, ◌-◌, List, [], ◌∷◌, ℕ, ◌+◌, ◌%◌, ◌≤◌, ◌<◌, ◌≡◌, Option, none, some,
}
use nure_queue.Target.{Build}
use nure_queue.Lap.Geometry.{Geometry}
use nure_queue.Lap.Ticket.{position}
use nure_queue.Queue.{Queue}
use nure_queue.Thread.{
  Closure, when_full, ring, option, Call, Point, push_tail, push_stamp, push_claim, push_write,
  push_publish, full_head, ring_claim, ring_tail, ring_replace, ring_publish, pop_head, pop_stamp,
  pop_claim, pop_read, pop_publish, pop_tail, empty_head, empty_tail, full_tail, full_check,
  len_tail, len_head, len_again, done, fault,
}

-- Where a slot stands with its ticket `n`, and the thread `i` that has it to itself.
pub data Stage : Type 0 where
  -- free for the push, and for the pop, of ticket `n`
  empty full : (n : ℕ) → Stage
  -- a push that has taken the ticket, and one that has written its value
  claimed writing : (i n : ℕ) → Stage
  -- a pop that has taken the ticket, and one that has read the value
  popping reading : (i n : ℕ) → Stage
  -- a `force_push` that has moved the head, the tail, and its value into the slot: it takes the value of
  -- ticket `n` out and puts that of ticket `n + N` in
  ring_claimed ring_stored ring_written : (i n : ℕ) → Stage

-- How many tickets pushes and pops have taken, the stages of the slots, the value of each ticket, and
-- what each thread is at by the specification.
pub record Ghost (A : Type 0) : Type 0 where
  pub takes : ℕ
  pub puts : ℕ
  pub stage : ℕ → Stage
  pub value : ℕ → Option A
  pub status : ℕ → Status A

abbrev pub ticket_of : Stage → ℕ
ticket_of (empty n) = n
ticket_of (full n) = n
ticket_of (claimed i n) = n
ticket_of (writing i n) = n
ticket_of (popping i n) = n
ticket_of (reading i n) = n
ticket_of (ring_claimed i n) = n
ticket_of (ring_stored i n) = n
ticket_of (ring_written i n) = n

abbrev pub owner : Stage → Option ℕ
owner (empty n) = none
owner (full n) = none
owner (claimed i n) = some i
owner (writing i n) = some i
owner (popping i n) = some i
owner (reading i n) = some i
owner (ring_claimed i n) = some i
owner (ring_stored i n) = some i
owner (ring_written i n) = some i

-- The ticket of a stage against the tickets taken.
abbrev pub Bounds : ℕ → ℕ → ℕ → Stage → Type 0
Bounds N takes puts (empty n) = (puts ≤ n) × (n < takes + N)
Bounds N takes puts (full n) = (takes ≤ n) × (n < puts)
Bounds N takes puts (claimed i n) = (takes ≤ n) × (n < puts)
Bounds N takes puts (writing i n) = (takes ≤ n) × (n < puts)
Bounds N takes puts (popping i n) = (n < takes) × (puts ≤ n + N)
Bounds N takes puts (reading i n) = (n < takes) × (puts ≤ n + N)
Bounds N takes puts (ring_claimed i n) = (n < takes) × (puts ≡ n + N)
Bounds N takes puts (ring_stored i n) = (takes ≤ n + N) × (n + N < puts)
Bounds N takes puts (ring_written i n) = (takes ≤ n + N) × (n + N < puts)

module _ {b : Build} {N L : ℕ} (g : Geometry b N L) where
  -- The stamp of a slot in a stage.
  abbrev pub stamp_of : Stage → ℕ
  stamp_of (empty n) = position g n
  stamp_of (claimed i n) = position g n
  stamp_of (writing i n) = position g n
  stamp_of (full n) = position g n + 1
  stamp_of (popping i n) = position g n + 1
  stamp_of (reading i n) = position g n + 1
  stamp_of (ring_claimed i n) = position g n + 1
  stamp_of (ring_stored i n) = position g n + 1
  stamp_of (ring_written i n) = position g n + 1

-- What a slot in a stage holds.
abbrev pub content_of : {A : Type 0} → ℕ → (ℕ → Option A) → Stage → Option A
content_of N value (empty n) = none
content_of N value (claimed i n) = none
content_of N value (writing i n) = value n
content_of N value (full n) = value n
content_of N value (popping i n) = value n
content_of N value (reading i n) = none
content_of N value (ring_claimed i n) = value n
content_of N value (ring_stored i n) = value n
content_of N value (ring_written i n) = value (n + N)

-- The values of `d` tickets from `n` on.
abbrev pub values_from : {A : Type 0} → (ℕ → Option A) → ℕ → ℕ → List A
values_from value n zero = []
values_from value n (suc d) = elim (value n) [
  | none ↦ values_from value (n + 1) d
  | some v ↦ v ∷ values_from value (n + 1) d
]

-- What the queue holds, by the specification: the values of the tickets that pushes have taken and pops
-- have not.
abbrev pub contents : {A : Type 0} → Ghost A → List A
contents x = values_from x.value x.takes (x.puts - x.takes)

-- The method that `push_or_else` runs for.
abbrev pub call_of : {A : Type 0} → Closure → A → Call A
call_of when_full v = Call.push v
call_of ring v = Call.force_push v

-- `len` is at work.
abbrev pub Counting : {A : Type 0} → Status A → Type 0
Counting (calling c) = (c ≡ Call.len)
Counting (measured k) = Unit
Counting (replacing v o) = ⊥
Counting (answered r) = ⊥

module _ {A : Type 0} {b : Build} {N L : ℕ} (g : Geometry b N L) where
  -- Slot `k` of the buffer.
  pub record SlotIs (x : Ghost A) (q : Queue A) (k : ℕ) : Type 0 where
    pub index : ticket_of (x.stage k) % N ≡ k
    pub bounds : Bounds N x.takes x.puts (x.stage k)
    pub slot :
        q.buffer k
        ≡ some (record { stamp = stamp_of g (x.stage k); value = content_of N x.value (x.stage k) })

  -- The memory, with no regard to the threads.
  pub record Memory (x : Ghost A) (q : Queue A) : Type 0 where
    pub lap : q.one_lap ≡ L
    pub head : q.head ≡ position g x.takes
    pub tail : q.tail ≡ position g x.puts
    pub ordered : x.takes ≤ x.puts
    pub within : x.puts ≤ x.takes + N
    pub known : (n : ℕ) → n < x.puts → (v : A) × (x.value n ≡ some v)
    pub slots : (k : ℕ) → k < N → SlotIs x q k

  -- A position of a push, or of a pop, that thread has loaded, `a` accesses ago.
  abbrev pub TailWas : Ghost A → ℕ → ℕ → ℕ → Type 0
  TailWas x a n w = (w ≡ position g n) × (n ≤ x.puts) × (x.puts ≤ n + a)

  abbrev pub HeadWas : Ghost A → ℕ → ℕ → ℕ → Type 0
  HeadWas x a n w = (w ≡ position g n) × (n ≤ x.takes) × (x.takes ≤ n + a)

  -- The slot of a ticket is in a stage.
  abbrev pub At : Ghost A → ℕ → Stage → Type 0
  At x n s = x.stage (n % N) ≡ s

  -- What is true where thread `i` stands, `a` accesses after it loaded its position.
  abbrev pub Local : Ghost A → ℕ → ℕ → Point A → Type 0
  Local x a i (push_tail c v k) = (x.status i ≡ calling (call_of c v))
  Local x a i (push_stamp c v k tail) =
      (n : ℕ) × TailWas x a n tail × (x.status i ≡ calling (call_of c v))
  Local x a i (push_claim c v k tail) =
      (n : ℕ) × TailWas x a n tail
      × (n ≡ x.puts → At x n (empty n))
      × (x.status i ≡ calling (call_of c v))
  Local x a i (push_write c v tail) =
      (n : ℕ) × (tail ≡ position g n)
      × At x n (claimed i n)
      × (x.value n ≡ some v)
      × (x.status i ≡ answered (push_reply c))
  Local x a i (push_publish c tail) =
      (n : ℕ) × (tail ≡ position g n)
      × At x n (writing i n)
      × (x.status i ≡ answered (push_reply c))
  Local x a i (full_head v k tail) =
      (n : ℕ) × TailWas x a n tail × (x.status i ≡ calling (Call.push v))
  Local x a i (ring_claim v k tail) =
      (n : ℕ) × TailWas x a (n + N) tail
      × (n ≡ x.takes → At x n (full n))
      × (x.status i ≡ calling (Call.force_push v))
  Local x a i (ring_tail v tail) =
      (n : ℕ) × (tail ≡ position g (n + N))
      × At x n (ring_claimed i n)
      × (x.status i ≡ replacing v (x.value n))
  Local x a i (ring_replace v tail) =
      (n : ℕ) × (tail ≡ position g (n + N))
      × At x n (ring_stored i n)
      × (x.value (n + N) ≡ some v)
      × (x.status i ≡ answered (option (x.value n)))
  Local x a i (ring_publish old tail) =
      (n : ℕ) × (tail ≡ position g (n + N))
      × At x n (ring_written i n)
      × (x.status i ≡ answered (option (some old)))
  Local x a i (pop_head k) = (x.status i ≡ calling Call.pop)
  Local x a i (pop_stamp k head) = (n : ℕ) × HeadWas x a n head × (x.status i ≡ calling Call.pop)
  Local x a i (pop_claim k head) =
      (n : ℕ) × HeadWas x a n head
      × (n ≡ x.takes → At x n (full n))
      × (x.status i ≡ calling Call.pop)
  Local x a i (pop_read head) =
      (n : ℕ) × (head ≡ position g n)
      × At x n (popping i n)
      × (x.status i ≡ answered (option (x.value n)))
  Local x a i (pop_publish msg head) =
      (n : ℕ) × (head ≡ position g n)
      × At x n (reading i n)
      × (x.status i ≡ answered (option (some msg)))
  Local x a i (pop_tail k head) = (n : ℕ) × HeadWas x a n head × (x.status i ≡ calling Call.pop)
  Local x a i empty_head = (x.status i ≡ calling Call.is_empty)
  Local x a i (empty_tail head) =
      (n : ℕ) × HeadWas x a n head × (x.status i ≡ calling Call.is_empty)
  Local x a i full_tail = (x.status i ≡ calling Call.is_full)
  Local x a i (full_check tail) = (n : ℕ) × TailWas x a n tail × (x.status i ≡ calling Call.is_full)
  Local x a i len_tail = Counting (x.status i)
  Local x a i (len_head tail) = (n : ℕ) × TailWas x a n tail × Counting (x.status i)
  Local x a i (len_again tail head) =
      (n : ℕ) × TailWas x a n tail
      × ((m : ℕ) × (k : ℕ) × (head ≡ position g m)
          × (x.status i ≡ measured k)
          × (n ≡ x.puts → (n ≡ m + k) × (k ≤ N)))
  Local x a i (done r) = (x.status i ≡ answered r)
  Local x a i fault = ⊥
