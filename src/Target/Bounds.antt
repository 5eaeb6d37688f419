-- ===== src/Target/Bounds.antt =====
-- How the words of a target fit one another.
use nure_queue.Common.{ℕ, suc, ◌-◌, ◌*◌, ◌/◌, ◌^◌, ◌≤◌, ◌<◌, ◌≡◌, ap, ◌∙◌, arith}
use nure_queue.Common.Bits.{two-pow-pos}
use nure_queue.Target.{Build, IsTarget, index_bits, isize_max}
use native.Mathlib.Nat.{pow-le-pow_right, pow-succ'}

module _ {b : Build} (t : IsTarget b) where
  open t use {widest, narrowest}

  -- `usize` is no wider than `Index`.
  pub pointer_width-le-index_bits : b.pointer_width ≤ index_bits b
  unfolding index_bits
  pointer_width-le-index_bits = ground arith

  pub pow-pointer_width-le : 2 ^ b.pointer_width ≤ 2 ^ index_bits b
  pow-pointer_width-le = pow-le-pow_right (omega arith) pointer_width-le-index_bits

  pub pow-pointer_width : 2 ^ b.pointer_width ≡ 4 * 2 ^ (b.pointer_width - 2)
  pow-pointer_width = omega (
    arith,
    ap (λ n. 2 ^ n) split,
    pow-succ' 2 (suc (b.pointer_width - 2)),
    pow-succ' 2 (b.pointer_width - 2),
  )
    where
      split : b.pointer_width ≡ suc (suc (b.pointer_width - 2))
      split = omega arith

  -- A capacity that `new` accepts is below a quarter of the words of `usize`.
  pub capacity_bound : (n : ℕ) → n ≤ isize_max b / 2 → n < 2 ^ (b.pointer_width - 2)
  unfolding isize_max
  capacity_bound n h = omega (arith, half, two-pow-pos (b.pointer_width - 2))
    where
      half : 2 ^ (b.pointer_width - 1) ≡ 2 * 2 ^ (b.pointer_width - 2)
      half = ap (λ n. 2 ^ n) (omega arith) ∙ pow-succ' 2 (b.pointer_width - 2)
