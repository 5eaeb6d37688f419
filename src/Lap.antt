-- ===== src/Lap.antt =====
-- Positions of the queue of src/lib.rs: a word of which the bits below `one_lap` are an index into
-- the buffer, and the bits above count the laps. `one_lap_for`, the two masks, and the successor.
pub mod OneLap
pub mod Geometry
pub mod Ticket
pub mod Distance
use nure_queue.Common.{
  ℕ, zero, suc, ◌+◌, ◌-◌, ◌*◌, ◌%◌, ◌^◌, bit_and, Option, none, some, ltb, ◌==◌, if◌then◌else◌,
}
use nure_queue.Target.{Build, index_bits, as_usize, wrapping_add, wrapping_sub, bit_not}

-- `while lap < need { lap *= 2; }`, on fuel; `none` means that the fuel ran out.
pub one_lap_loop : ℕ → ℕ → ℕ → ℕ → Option ℕ
one_lap_loop w zero need lap = none
one_lap_loop w (suc fuel) need lap =
    let rest = one_lap_loop w fuel need (lap * 2 % 2 ^ w) in if ltb lap need then rest else some lap

-- `one_lap_for` on `w`-bit words.
unfoldable pub one_lap_for : ℕ → ℕ → Option ℕ
unfolding one_lap_loop wrapping_add
one_lap_for w cap = one_lap_loop w w (wrapping_add w cap 1) 2

-- `(pos & (one_lap - 1)) as usize`
unfoldable pub index_of : Build → ℕ → ℕ → ℕ
unfolding as_usize
index_of b one_lap pos = as_usize b (bit_and pos (one_lap - 1))

-- `pos & !(one_lap - 1)`
unfoldable pub lap_of : Build → ℕ → ℕ → ℕ
unfolding bit_not
lap_of b one_lap pos = bit_and pos (bit_not (index_bits b) (one_lap - 1))

-- The `new_tail` of `push_or_else` and the `new` of `pop`: the next index, or the next lap.
unfoldable pub next_pos : Build → ℕ → ℕ → ℕ → ℕ
unfolding index_of lap_of wrapping_add
next_pos b cap one_lap pos =
    if ltb (wrapping_add b.pointer_width (index_of b one_lap pos) 1) cap
    then wrapping_add (index_bits b) pos 1
    else wrapping_add (index_bits b) (lap_of b one_lap pos) one_lap

-- `len` and `drop`: the number of elements between two positions.
unfoldable pub distance : Build → ℕ → ℕ → ℕ → ℕ → ℕ
unfolding index_of wrapping_add wrapping_sub
distance b N lap head tail =
    let hix = index_of b lap head in
    let tix = index_of b lap tail in
    if ltb hix tix
    then wrapping_sub b.pointer_width tix hix
    else (if ltb tix hix
        then wrapping_add b.pointer_width (wrapping_sub b.pointer_width N hix) tix
        else (if tail == head then 0 else N))
