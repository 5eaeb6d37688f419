-- ===== src/Backoff.antt =====
-- `Backoff` of src/lib.rs: how long a thread pauses before it tries again. The pause itself has no
-- effect on the queue; what is modelled is its kind and length, and the counter.
pub mod Schedule
use nure_queue.Common.{ℕ, ◌+◌, ◌%◌, ◌^◌, min, Bool, ◌&&◌, ltb, if◌then◌else◌}
use nure_queue.Target.{Build}

-- `Backoff`; `spins` is a `u32`.
pub record Backoff : Type 0 where
  pub spins : ℕ

-- What a call does to the processor: `std::thread::yield_now`, or so many `spin_loop` hints.
pub data Pause : Type 0 where
  yielded : Pause
  hints : ℕ → Pause

abbrev pub fresh : Backoff
fresh = record { spins = 0 }

-- The part that `spin` and `snooze` have in common, at the exponent `high` and the limit `stop`.
pause : ℕ → ℕ → Backoff → Backoff × Pause
pause high stop k = (
  (if ltb k.spins stop then record { spins = (k.spins + 1) % 2 ^ 32 } else k),
  hints (2 ^ min k.spins high % 2 ^ 32),
)

unfoldable pub spin : Build → Backoff → Backoff × Pause
unfolding pause
spin b k = if b.std && ltb 6 k.spins then (k, yielded) else pause 6 8 k

unfoldable pub snooze : Build → Backoff → Backoff × Pause
unfolding pause
snooze b k = if b.std && ltb 8 k.spins then (k, yielded) else pause 8 10 k
