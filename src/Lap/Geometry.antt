-- ===== src/Lap/Geometry.antt =====
-- What `new` makes sure of: the capacity, the lap and the width of a queue fit one another.
use nure_queue.Common.{ℕ, ◌+◌, ◌-◌, ◌*◌, ◌/◌, ◌^◌, ◌≤◌, ◌<◌, ◌≡◌, refl, ap, ◌∙◌, some, arith}
use nure_queue.Common.Bits.{two-pow-pos, pow-add}
use nure_queue.Target.{Build, IsTarget, index_bits, isize_max}
use nure_queue.Target.Bounds.{pointer_width-le-index_bits, pow-pointer_width, capacity_bound}
use nure_queue.Lap.{one_lap_for}
use nure_queue.Lap.OneLap.{one_lap_for_lem}
use native.Mathlib.Nat.{pow-le-pow_right, le_trans}

-- `lap` is `2 ^ log`, above the capacity `cap`; `laps` laps make up the words of `Index`, and at
-- least four laps fit.
pub record Geometry (b : Build) (cap lap : ℕ) : Type 0 where
  pub target : IsTarget b
  pub log : ℕ
  pub laps : ℕ
  pub power : lap ≡ 2 ^ log
  pub log-le : log ≤ index_bits b
  pub above : cap < lap
  pub cap_pos : 0 < cap
  pub words : 2 ^ index_bits b ≡ laps * lap
  pub laps-le : 4 ≤ laps
  pub addressable : 4 * cap < 2 ^ b.pointer_width

-- Every capacity that the assertions of `new` let through has a lap, and they fit.
pub one_lap_for-Geometry :
    {b : Build} (cap : ℕ)
    → IsTarget b
    → 0 < cap
    → cap ≤ isize_max b / 2
    → (lap : ℕ) × (one_lap_for (index_bits b) cap ≡ some lap) × Geometry b cap lap
one_lap_for-Geometry {b} cap t pos small =
    let w = index_bits b in
    let wide : b.pointer_width ≤ w = pointer_width-le-index_bits t in
    let low : cap < 2 ^ (b.pointer_width - 2) = capacity_bound t cap small in
    let fits : cap < 2 ^ (w - 1) =
      le_trans low (pow-le-pow_right {n = 2} (omega arith) (omega (arith, t.narrowest))) in
    let (k, runs, _, above, least) = one_lap_for_lem w cap (omega (arith, t.narrowest)) pos fits in
    let short : k ≤ b.pointer_width - 2 = least (b.pointer_width - 2) low in
    let spare : 2 + k ≤ w = omega (arith, t.narrowest) in
    (
      2 ^ k,
      runs,
      record {
        target = t;
        log = k;
        laps = 2 ^ (w - k);
        power = refl;
        log-le = omega arith;
        above = above;
        cap_pos = pos;
        words = ap (λ n. 2 ^ n) (omega arith) ∙ pow-add (w - k) k;
        laps-le = pow-le-pow_right {n = 2} (omega arith) {i = 2} {j = w - k} (omega arith);
        addressable = omega (arith, pow-pointer_width t, two-pow-pos (b.pointer_width - 2));
      },
    )
