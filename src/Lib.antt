-- ===== src/Lib.antt =====
-- nure-queue: a bounded lock-free queue for many producers and consumers, in static storage.
--
-- The program is src/lib.rs. `Queue<T, N>` is a ring of N slots under two words, `head` and `tail`. The
-- low bits of a position are an index into the ring, and the bits above count laps; `one_lap`, a power
-- of two above N, separates them. Each slot has a stamp that says which position may use it next. A push
-- takes a position by a compare-exchange of the tail, writes its value and publishes it by the stamp; a
-- pop takes one by a compare-exchange of the head, reads the value and hands the slot to the next lap.
--
-- Files, from the words up:
--   Common       lists, tests, masks, division: no code of the program.
--   Target       `mod atom`: the widths of `Index` and `usize` in each build, and their operations with
--                wrap-around written out (`+` and `wrapping_add` are one function).
--   Lap          positions: `one_lap_for`, the index and lap masks, the successor (`new_tail` in
--                `push_or_else`, `new` in `pop`), and the count between two positions (`len`, `drop`).
--                Geometry says how capacity, lap and word fit; Ticket reads a position as the word of an
--                unbounded ticket, and Distance counts tickets.
--   Backoff      `Backoff::spin` and `snooze`.
--   Slot         `Slot` and its methods. Loom has their variants in a loom build, over loom's `UnsafeCell` as
--                a parameter; all other modules use those of the default build.
--   Queue        the struct, `new` and `capacity`.
--   Thread       the methods as threads: a `Point` is the next access to shared memory with the locals
--                that are live there; Step makes that access. `push_or_else` is one set of points, with
--                its closure as a tag (`when_full` for `push`, `ring` for `force_push`).
--   Fifo         the specification: a list of at most N values. It is also the `VecDeque` of
--                tests/differential.rs.
--   Solo         a method run by one thread alone, with `compare_exchange_weak` failing spuriously where
--                a list of flags says so. Holds is the invariant between calls; RoundTrip pushes a list and
--                pops it.
--   Atomic       the specifications for any number of threads. In Exact each method is one action on a list,
--                as in Fifo, at one moment between its call and its return, and only `force_push` on a full
--                list may be two: a pop of the oldest value, and then a push. (Exact/Measured is Exact with a
--                `len` that counts several times, which Exact/Collapse takes out.) Atomic itself is looser,
--                and closer to the accesses: `is_empty` and `is_full` may answer false late, and `len` counts
--                several times.
--   System       any number of threads in one queue. A Step is one access of one thread, or a thread that
--                has returned calling a method; Reach is every state that a new queue gets into.
--                Invariant says what is true of the memory and of each thread, by tickets: each slot is in
--                a Stage, some of which name the one thread that has the slot to itself. Linear is about
--                sequences of returns and calls, Answers and Flags about the access that decides a reply.
--                Quiet is about a queue where no thread is between its compare-exchange and its stamp store,
--                Alone about a thread that makes accesses while the others make none. Stall is about a push
--                that is stopped between its compare-exchange and its stamp store, and Blocked about such a
--                pop. Account (with Atomic/Account) says where the values that are passed to the methods go,
--                and Clients (with Atomic/Clients) is about the clients of tests/repro583.rs. Order counts,
--                beside the states of System, which accesses to a payload happen before which, by the release
--                stores and acquire loads of the stamps. Overflow is about the sums `tail + 1` and `head + 1`.
--   Drop         `Drop for Queue`.
--   Differential `check_ops` of tests/differential.rs, `check_drops` in Drops, and the target of
--                fuzz/fuzz_targets/queue_differential.rs in Fuzz.
--   Tests        runs at fixed inputs, and the theorems at inputs that meet their hypotheses.
--
-- Bounds and fuel. Widths are those of Rust's `usize` (16 to 64 bits) and of `Index` (64 bits, or
-- `usize` in a loom build or on a target with no 64-bit atomics). `one_lap_for` has as many rounds as the
-- word has bits, which its loop cannot exceed. A method run alone has `enough flags` accesses:
-- 3 for each flag, since a spurious failure costs at most three accesses, and 8 more; from the middle of a
-- method it is 12 more. The loop that empties the queue in `check_drops` has N + 1 rounds, one more than
-- the queue has values.
-- A word repeats after so many tickets that a thread that sleeps between the load of a position and its
-- compare-exchange could take an old position for the current one. System bounds the accesses meanwhile by
-- `patience`, which with three laps of the buffer is at most the number of positions in a word: 2^62 and
-- more for a 64-bit `Index` and a buffer of 2 slots, and always at least N.
-- Positions wrap around in every theorem of Lap, Solo, System, Drop and Differential.
--
-- Not modelled: the alignment of `Padded`; the `Send` and `Sync` markers; `Debug`, which prints a constant;
-- executions in which the accesses to the words and stamps have no one order (Order is about the accesses
-- to payloads between them); the benchmarks, with the copy of lfqueue that they use; loom's search of
-- schedules, of which only the documented behaviour of its cell is a hypothesis.
pub mod Common
pub mod Target
pub mod Lap
pub mod Backoff
pub mod Slot
pub mod Queue
pub mod Thread
pub mod Fifo
pub mod Solo
pub mod Drop
pub mod Differential
pub mod Atomic
pub mod System
mod Tests
