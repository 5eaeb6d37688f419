-- ===== src/System/Order.antt =====
-- Which accesses to a payload happen before which, by the orderings of src/lib.rs: a release store of a
-- stamp and an acquire load that reads it. No other access to shared memory orders anything here.
pub mod Kinds
pub mod Kept
pub mod Exchange
pub mod Races
use nure_queue.Common.{
  ℕ, zero, suc, ◌+◌, ◌<◌, ◌≡◌, Bool, true, Option, none, some, ltb, if◌then◌else◌,
}
use nure_queue.Common.Family.{update}
use nure_queue.Target.{Build}
use nure_queue.Lap.{index_of}
use nure_queue.Queue.{empty_queue}
use nure_queue.Thread.{
  Point, push_stamp, push_write, push_publish, ring_replace, ring_publish, pop_stamp, pop_read,
  pop_publish, Call, entry,
}
use nure_queue.System.{System, Step, move, call}

-- By slot: the accesses to its payload so far, how many of them at least happen before what thread `i`
-- does next, and how many at least happen before the end of an acquire load that reads the present stamp.
pub record Clocks : Type 0 where
  pub accesses : ℕ → ℕ
  pub known : ℕ → ℕ → ℕ
  pub released : ℕ → ℕ

-- What an access does: an acquire load, or a release store, of the stamp of a position's slot, or an
-- access to its payload.
pub data Effect : Type 0 where
  nothing : Effect
  acquires touches releases : ℕ → Effect

abbrev pub effect : {A : Type 0} → Point A → Effect
effect (push_stamp c v k tail) = acquires tail
effect (push_write c v tail) = touches tail
effect (push_publish c tail) = releases tail
effect (ring_replace v tail) = touches tail
effect (ring_publish old tail) = releases tail
effect (pop_stamp k head) = acquires head
effect (pop_read head) = touches head
effect (pop_publish msg head) = releases head
effect p = nothing

abbrev pub max : ℕ → ℕ → ℕ
max m n = if ltb m n then n else m

module _ (k i : ℕ) (c : Clocks) where
  abbrev pub learns : ℕ → ℕ → ℕ → ℕ
  learns n = update c.known i (update (c.known i) k n)

  abbrev pub acquired : Clocks
  acquired = record c { known = learns (max (c.known i k) (c.released k)) }

  abbrev pub touched : Clocks
  touched = record c {
    accesses = update c.accesses k (c.accesses k + 1);
    known = learns (c.known i k + 1);
  }

  abbrev pub given_out : Clocks
  given_out = record c { released = update c.released k (c.known i k) }

-- The clocks after an access of thread `i`.
abbrev pub tick : Build → ℕ → ℕ → Effect → Clocks → Clocks
tick b lap i nothing c = c
tick b lap i (acquires w) c = acquired (index_of b lap w) i c
tick b lap i (touches w) c = touched (index_of b lap w) i c
tick b lap i (releases w) c = given_out (index_of b lap w) i c

module _ {A : Type 0} (b : Build) (N n patience : ℕ) where
  abbrev pub after : {s t : System A} → Step b N n patience s t → Clocks → Clocks
  after {s} (move i f lt fresh) c = tick b s.queue.one_lap i (effect (s.at i)) c
  after (call i r d lt e) c = c

  -- The states that a new queue gets into, each with its clocks.
  pub data Ordered (lap : ℕ) (first : ℕ → Call A) : System A → Clocks → Type 0 where
    start :
        Ordered lap first
          (record { queue = empty_queue b N lap; at = λ i. entry (first i); age = λ i. 0 })
          (record { accesses = λ k. 0; known = λ i k. 0; released = λ k. 0 })
    later :
        {s t : System A} {c : Clocks}
        → Ordered lap first s c
        → (w : Step b N n patience s t) → Ordered lap first t (after w c)
