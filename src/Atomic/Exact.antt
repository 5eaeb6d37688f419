-- ===== src/Atomic/Exact.antt =====
-- The bounded first-in first-out queue that `Fifo.answer` describes, for any number of threads: a method
-- is one action between its call and its return, and only `force_push` on a full list may be two. It takes
-- the oldest value out, and later puts its own in.
pub mod Measured
pub mod Collapse
use nure_queue.Common.{ℕ, ◌<◌, ◌≡◌, List, [], ◌∷◌, ◌++◌, Option, some, length}
use nure_queue.Common.Family.{update}
use nure_queue.Thread.{Reply, Call, option}
use nure_queue.Fifo
use nure_queue.Atomic.{Status, calling, replacing, answered, Event}

-- An action of a thread on the list, with its status before and after.
pub data Exact {A : Type 0} (N : ℕ) : List A → Status A → List A → Status A → Type 0 where
  idle : {xs : List A} {s : Status A} → Exact N xs s xs s
  -- The whole effect of a method, and its reply.
  whole :
      {xs : List A} (c : Call A)
      → Exact N xs (calling c) (Fifo.answer N c xs).1 (answered (Fifo.answer N c xs).0)
  -- The two halves of `force_push` on a full list.
  first_half :
      {xs : List A} (v old : A)
      → length (old ∷ xs) ≡ N
      → Exact N (old ∷ xs) (calling (Call.force_push v)) xs (replacing v (some old))
  second_half :
      {xs : List A} (v : A) (o : Option A)
      → length xs < N
      → Exact N xs (replacing v o) (xs ++ (v ∷ [])) (answered (option o))

-- The lists and statuses of `n` threads that call `first i` to begin with, from the empty list, by actions
-- `R` and calls, with the returns and calls up to there, the last one first.
pub data ActionTrace {A : Type 0} (R : List A → Status A → List A → Status A → Type 0) (n : ℕ)
    (first : ℕ → Call A) : List (Event A) → List A → (ℕ → Status A) → Type 0 where
  start : ActionTrace R n first [] [] (λ i. calling (first i))
  act :
      {h : List (Event A)} {xs ys : List A} {e : ℕ → Status A} {s : Status A} (i : ℕ)
      → i < n
      → ActionTrace R n first h xs e
      → R xs (e i) ys s
      → ActionTrace R n first h ys (update e i s)
  call :
      {h : List (Event A)} {xs : List A} {e : ℕ → Status A} (i : ℕ) (r : Reply A) (c : Call A)
      → i < n
      → ActionTrace R n first h xs e
      → e i ≡ answered r
      → ActionTrace R n first ((i, r, c) ∷ h) xs (update e i (calling c))

abbrev pub ExactTrace :
    {A : Type 0} → ℕ → ℕ → (ℕ → Call A) → List (Event A) → List A → (ℕ → Status A) → Type 0
ExactTrace N n = ActionTrace (Exact N) n
