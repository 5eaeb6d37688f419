-- ===== src/Thread.antt =====
-- The methods of `Queue` in src/lib.rs as threads. A thread stands at a point of a method, the next
-- access to shared memory, with the local variables that are live there. `Step` makes the access.
pub mod Step
use nure_queue.Common.{ℕ, Bool, Option}
use nure_queue.Backoff.{Backoff, fresh}

-- The closure that `push_or_else` is given: by `push`, or by `force_push`.
pub data Closure : Type 0 where
  when_full ring : Closure

-- What a method returns.
pub data Reply {ℓ} (A : Type ℓ) : Type ℓ where
  -- `push`: `Ok(())` and `Err(v)`
  pushed : Reply A
  rejected : A → Reply A
  -- `force_push` and `pop`: an `Option<T>`
  option : Option A → Reply A
  -- `is_empty` and `is_full`
  flag : Bool → Reply A
  -- `len`
  count : ℕ → Reply A

-- The next access of a thread.
pub data Point {ℓ} (A : Type ℓ) : Type ℓ where
  -- `push_or_else`: load the tail, load the stamp of its slot, exchange the tail, write the value, store
  -- the stamp
  push_tail : Closure → A → Backoff → Point A
  push_stamp : Closure → A → Backoff → (tail : ℕ) → Point A
  push_claim : Closure → A → Backoff → (tail : ℕ) → Point A
  push_write : Closure → A → (tail : ℕ) → Point A
  push_publish : Closure → (tail : ℕ) → Point A
  -- the closure of `push`: load the head
  full_head : A → Backoff → (tail : ℕ) → Point A
  -- the closure of `force_push`: exchange the head, store the tail, replace the value, store the stamp
  ring_claim : A → Backoff → (tail : ℕ) → Point A
  ring_tail : A → (tail : ℕ) → Point A
  ring_replace : A → (tail : ℕ) → Point A
  ring_publish : (old : A) → (tail : ℕ) → Point A
  -- `pop`: load the head, load the stamp of its slot, exchange the head, read the value, store the stamp;
  -- or load the tail
  pop_head : Backoff → Point A
  pop_stamp : Backoff → (head : ℕ) → Point A
  pop_claim : Backoff → (head : ℕ) → Point A
  pop_read : (head : ℕ) → Point A
  pop_publish : (msg : A) → (head : ℕ) → Point A
  pop_tail : Backoff → (head : ℕ) → Point A
  -- `is_empty`, `is_full` and `len`
  empty_head : Point A
  empty_tail : (head : ℕ) → Point A
  full_tail : Point A
  full_check : (tail : ℕ) → Point A
  len_tail : Point A
  len_head : (tail : ℕ) → Point A
  len_again : (tail head : ℕ) → Point A
  -- the method has returned
  done : Reply A → Point A
  -- undefined behaviour
  fault : Point A

-- The public methods. `enqueue` and `dequeue` are `push` and `pop`.
pub data Call {ℓ} (A : Type ℓ) : Type ℓ where
  push force_push : A → Call A
  pop is_empty is_full len : Call A

-- Where a method begins.
unfoldable pub entry {ℓ} : {A : Type ℓ} → Call A → Point A
entry (push v) = push_tail when_full v fresh
entry (force_push v) = push_tail ring v fresh
entry pop = pop_head fresh
entry is_empty = empty_head
entry is_full = full_tail
entry len = len_tail
