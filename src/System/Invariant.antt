-- ===== src/System/Invariant.antt =====
-- The invariant of a queue with any number of threads.
pub mod Defs
pub mod Owns
pub mod Contents
pub mod Frame
pub mod Change
pub mod Stamps
pub mod Moves
pub mod PushStamps
pub mod Tickets
pub mod Pushes
pub mod Pops
pub mod Rings
pub mod Observers
pub mod Accesses
pub mod All
