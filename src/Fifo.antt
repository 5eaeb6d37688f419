-- ===== src/Fifo.antt =====
-- The specification: a first-in first-out queue of at most `N` values, the oldest at the head of the
-- list. It is the `VecDeque` that tests/differential.rs runs beside the queue.
use nure_queue.Common.{ℕ, List, [], ◌∷◌, ◌++◌, Option, none, some, length, ltb, ◌==◌, if◌then◌else◌}
use nure_queue.Thread.{Reply, pushed, rejected, option, flag, count, Call}

module _ {ℓ} {A : Type ℓ} where
  abbrev pub front : List A → Option A
  front [] = none
  front (x ∷ xs) = some x

  abbrev pub behind : List A → List A
  behind [] = []
  behind (x ∷ xs) = xs

  -- `push_back` if there is room.
  unfoldable pub push : ℕ → A → List A → Reply A × List A
  push N v xs = if ltb (length xs) N then (pushed, xs ++ (v ∷ [])) else (rejected v, xs)

  -- `pop_front`
  unfoldable pub pop : List A → Reply A × List A
  pop xs = (option (front xs), behind xs)

  -- `pop_front` if the queue is full, and `push_back`.
  unfoldable pub force_push : ℕ → A → List A → Reply A × List A
  force_push N v xs =
      if length xs == N
      then (option (front xs), behind xs ++ (v ∷ []))
      else (option none, xs ++ (v ∷ []))

  -- Each method on the list: its reply, and the list after it.
  unfoldable pub answer : ℕ → Call A → List A → Reply A × List A
  unfolding push pop force_push
  answer N (Call.push v) xs = push N v xs
  answer N (Call.force_push v) xs = force_push N v xs
  answer N Call.pop xs = pop xs
  answer N Call.is_empty xs = (flag (length xs == 0), xs)
  answer N Call.is_full xs = (flag (length xs == N), xs)
  answer N Call.len xs = (count (length xs), xs)
