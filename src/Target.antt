-- ===== src/Target.antt =====
-- The build that the crate is compiled for: `mod atom` of src/lib.rs, and the machine words of the
-- target. A word is the native number that it stands for; every operation writes out its wrap.
pub mod Bounds
use nure_queue.Common.{ℕ, ◌+◌, ◌-◌, ◌/◌, ◌%◌, ◌^◌, ◌≤◌, Bool, if◌then◌else◌}

-- The cargo features `loom` and `std`, `target_has_atomic = "64"`, and the width of `usize`.
pub record Build : Type 0 where
  pub loom : Bool
  pub std : Bool
  pub atomic64 : Bool
  pub pointer_width : ℕ

-- The widths of `usize` that Rust has.
pub record IsTarget (b : Build) : Type 0 where
  pub widest : b.pointer_width ≤ 64
  pub narrowest : 16 ≤ b.pointer_width

-- The width of `Index`.
unfoldable pub index_bits : Build → ℕ
index_bits b = if b.loom then b.pointer_width else (if b.atomic64 then 64 else b.pointer_width)

-- `isize::MAX as usize`
unfoldable pub isize_max : Build → ℕ
isize_max b = 2 ^ (b.pointer_width - 1) - 1

-- `x as usize`
unfoldable pub as_usize : Build → ℕ → ℕ
as_usize b x = x % 2 ^ b.pointer_width

-- `x as Index`
unfoldable pub as_index : Build → ℕ → ℕ
as_index b x = x % 2 ^ index_bits b

-- Addition of `w`-bit words. It stands for `wrapping_add`, and for a plain `+`, which panics in a
-- debug build where it wraps.
unfoldable pub wrapping_add : ℕ → ℕ → ℕ → ℕ
wrapping_add w x y = (x + y) % 2 ^ w

-- Subtraction of `w`-bit words.
unfoldable pub wrapping_sub : ℕ → ℕ → ℕ → ℕ
wrapping_sub w x y = (x + 2 ^ w - y) % 2 ^ w

-- `!x` on `w`-bit words.
unfoldable pub bit_not : ℕ → ℕ → ℕ
bit_not w x = 2 ^ w - 1 - x
