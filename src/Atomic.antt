-- ===== src/Atomic.antt =====
-- The specification for any number of threads: a list of at most `N` values, on which each method of
-- src/lib.rs takes effect in one action, at some moment between its call and its return. `force_push` on a
-- full queue is two actions: it takes the oldest value out, and then puts its own in. `is_empty` and
-- `is_full` may answer false late, and `len` may count several times; Exact leaves them no such choice.
pub mod Account
pub mod Clients
pub mod Exact
use nure_queue.Common.{
  ℕ, ◌<◌, ◌≡◌, ◌≢◌, Bool, true, List, [], ◌∷◌, ◌++◌, Option, none, some, length,
}
use nure_queue.Thread.{Reply, pushed, rejected, option, flag, count, Call}

-- What a thread is at: it has called and has had no effect; `len` has counted; `force_push` has taken a
-- value out; or its answer is settled.
pub data Status (A : Type 0) : Type 0 where
  calling : Call A → Status A
  measured : ℕ → Status A
  replacing : A → Option A → Status A
  answered : Reply A → Status A

-- An action of a thread on the list, with its status before and after.
pub data Act {A : Type 0} (N : ℕ) : List A → Status A → List A → Status A → Type 0 where
  wait : {xs : List A} {s : Status A} → Act N xs s xs s
  put :
      {xs : List A} (v : A)
      → length xs < N
      → Act N xs (calling (Call.push v)) (xs ++ (v ∷ [])) (answered pushed)
  reject :
      {xs : List A} (v : A)
      → length xs ≡ N
      → Act N xs (calling (Call.push v)) xs (answered (rejected v))
  ring_put :
      {xs : List A} (v : A)
      → length xs < N
      → Act N xs (calling (Call.force_push v)) (xs ++ (v ∷ [])) (answered (option none))
  replace_take :
      {xs : List A} (v old : A)
      → length (old ∷ xs) ≡ N
      → Act N (old ∷ xs) (calling (Call.force_push v)) xs (replacing v (some old))
  replace_put :
      {xs : List A} (v : A) (o : Option A)
      → length xs < N
      → Act N xs (replacing v o) (xs ++ (v ∷ [])) (answered (option o))
  take : {xs : List A} (v : A) → Act N (v ∷ xs) (calling Call.pop) xs (answered (option (some v)))
  take_none : Act N [] (calling Call.pop) [] (answered (option none))
  -- `is_empty` and `is_full` may answer false late: only true tells of this moment.
  see_empty :
      {xs : List A} (f : Bool)
      → (f ≡ true → xs ≡ [])
      → Act N xs (calling Call.is_empty) xs (answered (flag f))
  see_full :
      {xs : List A} (f : Bool)
      → (f ≡ true → length xs ≡ N)
      → Act N xs (calling Call.is_full) xs (answered (flag f))
  -- `len` counts, perhaps again, and answers with its last count.
  measure : {xs : List A} → Act N xs (calling Call.len) xs (measured (length xs))
  measure_again : {xs : List A} (k : ℕ) → Act N xs (measured k) xs (measured (length xs))
  answer_count : {xs : List A} (k : ℕ) → Act N xs (measured k) xs (answered (count k))

pub record Atomic (A : Type 0) : Type 0 where
  pub contents : List A
  pub status : ℕ → Status A

-- A thread has returned the reply and calls the method.
abbrev pub Event : Type 0 → Type 0
Event A = ℕ × Reply A × Call A

module _ {A : Type 0} (N n : ℕ) where
  pub data AtomicStep (s t : Atomic A) : Type 0 where
    act :
        (i : ℕ)
        → i < n
        → Act N s.contents (s.status i) t.contents (t.status i)
        → ((j : ℕ) → j ≢ i → t.status j ≡ s.status j)
        → AtomicStep s t
    call :
        (i : ℕ) (r : Reply A) (c : Call A)
        → i < n
        → s.status i ≡ answered r
        → t.status i ≡ calling c
        → ((j : ℕ) → j ≢ i → t.status j ≡ s.status j)
        → t.contents ≡ s.contents
        → AtomicStep s t

  abbrev pub atomic_event : {s t : Atomic A} → AtomicStep s t → List (Event A)
  atomic_event (act i lt a others) = []
  atomic_event (call i r c lt before now others same) = (i, r, c) ∷ []

  -- The events up to a state, the last one first, from an empty list, where thread `i` first calls
  -- `first i`.
  pub data AtomicTrace (first : ℕ → Call A) : List (Event A) → Atomic A → Type 0 where
    start : AtomicTrace first [] (record { contents = []; status = λ i. calling (first i) })
    later :
        {h : List (Event A)} {s t : Atomic A}
        → AtomicTrace first h s
        → (w : AtomicStep s t) → AtomicTrace first (atomic_event w ++ h) t
