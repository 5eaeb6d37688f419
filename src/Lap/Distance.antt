-- ===== src/Lap/Distance.antt =====
-- `distance` of the positions of two tickets is the number of tickets between them.
use nure_queue.Common.{
  ℕ, ◌+◌, ◌-◌, ◌*◌, ◌%◌, ◌^◌, ◌≤◌, ◌<◌, ◌≡◌, false, sym, ap, ap₂, ◌∙◌, ltb, ◌==◌, if◌then◌else◌,
  lt→ltb, le→not-ltb, eq→==, ne→not-==, dec_lt, ℕ_discrete, arith,
}
use nure_queue.Target.{Build}
use nure_queue.Lap.{distance}
use nure_queue.Lap.Geometry.{Geometry}
use nure_queue.Lap.Ticket.{position, slot-lt, index_of-position, position_injective}
use nure_queue.Common.Div.{mul_mono}
use native.Mathlib.Nat.{mod-eq_of_lt, mod-add-mod, mod-eq-sub-mod, add-mod_right}

-- The index of ticket `h + d`, for at most a lap.
pub index_near : (N h d : ℕ) → h % N + d < N → (h + d) % N ≡ h % N + d
index_near N h d lt = sym (mod-add-mod h N d) ∙ mod-eq_of_lt lt

pub index_round : (N h d : ℕ) → N ≤ h % N + d → h % N + d < N + N → (h + d) % N + N ≡ h % N + d
index_round N h d le lt = omega (
  arith,
  sym (mod-add-mod h N d) ∙ mod-eq-sub-mod {n = h % N + d} {m = N} le,
  mod-eq_of_lt {n = h % N + d - N} {m = N} (omega arith),
)

-- The arithmetic of `distance` on indices.
between : (pw N hix tix head tail : ℕ) → ℕ
between pw N hix tix head tail =
    if ltb hix tix
    then (tix + 2 ^ pw - hix) % 2 ^ pw
    else (if ltb tix hix
        then ((N + 2 ^ pw - hix) % 2 ^ pw + tix) % 2 ^ pw
        else (if tail == head then 0 else N))

-- A subtraction of words that does not borrow.
pub sub_wrap : (m x y d : ℕ) → x ≡ y + d → d < m → (x + m - y) % m ≡ d
sub_wrap m x y d e lt =
    ap (λ n. n % m) {x = x + m - y} {y = d + m} (omega arith) ∙ add-mod_right d m ∙ mod-eq_of_lt lt

-- Less than a lap, with no turn at the end of the buffer.
between_near :
    (pw N hix tix head tail d : ℕ)
    → tix ≡ hix + d
    → (tail == head) ≡ (d == 0)
    → d < 2 ^ pw
    → between pw N hix tix head tail ≡ d
unfolding between
between_near pw N hix tix head tail d e same fits = elim (ℕ_discrete d 0) [
  | yes zero_apart ↦
      rw
        (
          le→not-ltb hix tix (omega arith),
          le→not-ltb tix hix (omega arith),
          same,
          eq→== d 0 zero_apart,
        )
        (sym zero_apart)
  | no some_apart ↦
      rw (lt→ltb hix tix (omega arith)) (sub_wrap (2 ^ pw) tix hix d (omega arith) fits)
]

between_round :
    (pw N hix tix head tail d : ℕ)
    → tix + N ≡ hix + d
    → d < N
    → N < 2 ^ pw
    → hix < N
    → between pw N hix tix head tail ≡ d
unfolding between
between_round pw N hix tix head tail d e part fits inside =
    rw (le→not-ltb hix tix (omega arith), lt→ltb tix hix (omega arith))
      (ap (λ n. (n + tix) % 2 ^ pw) (sub_wrap (2 ^ pw) N hix (N - hix) (omega arith) (omega arith))
        ∙ ap (λ n. n % 2 ^ pw) {x = N - hix + tix} {y = d} (omega arith)
        ∙ mod-eq_of_lt (omega arith))

between_lap :
    (pw N hix tix head tail : ℕ)
    → tix ≡ hix
    → (tail == head) ≡ false
    → between pw N hix tix head tail ≡ N
unfolding between
between_lap pw N hix tix head tail e other =
    rw (le→not-ltb hix tix (omega arith), le→not-ltb tix hix (omega arith), other)

module _ {b : Build} {N L : ℕ} (g : Geometry b N L) where
  distance-between :
      (h t : ℕ)
      → distance b N L (position g h) (position g t)
        ≡ between b.pointer_width N (h % N) (t % N) (position g h) (position g t)
  unfolding distance between
  distance-between h t =
      ap₂ (λ i j. between b.pointer_width N i j (position g h) (position g t))
        (index_of-position g h) (index_of-position g t)

  pub lap_room : 4 * N ≤ N * g.laps
  lap_room = omega (arith, mul_mono N 4 g.laps g.laps-le)

  -- Words of tickets less than four laps apart are equal exactly if the tickets are.
  pub position-== : (m n : ℕ) → m ≤ n → n < m + 4 * N → (position g n == position g m) ≡ (n == m)
  position-== m n le near = elim (ℕ_discrete m n) [
    | yes e ↦ eq→== _ _ (ap (position g) (sym e)) ∙ sym (eq→== _ _ (sym e))
    | no ne ↦
        ne→not-== _ _ (λ e. ne (position_injective g m n le (omega (arith, lap_room)) (sym e)))
        ∙ sym (ne→not-== _ _ (λ e. ne (sym e)))
  ]

  pub same_position : (h d : ℕ) → d ≤ N → (position g (h + d) == position g h) ≡ (d == 0)
  same_position h d le =
      position-== h (h + d) (omega arith) (omega (arith, g.cap_pos)) ∙ ground arith

  -- Between a ticket and one at most a lap on, `distance` counts the tickets.
  pub distance-position : (h d : ℕ) → d ≤ N → distance b N L (position g h) (position g (h + d)) ≡ d
  distance-position h d le = elim (ℕ_discrete d N) [
    | yes lap ↦
        distance-between h (h + d)
        ∙ between_lap b.pointer_width N (h % N) ((h + d) % N) _ _
            (ap (λ n. (h + n) % N) lap ∙ add-mod_right h N)
            (same_position h d le ∙ ne→not-== d 0 (omega (arith, g.cap_pos)))
        ∙ sym lap
    | no part ↦ distance-between h (h + d) ∙ (elim (dec_lt (h % N + d) N) [
      | yes near ↦
          between_near b.pointer_width N (h % N) ((h + d) % N) _ _ d (index_near N h d near)
            (same_position h d le) (omega (arith, g.addressable))
      | no far ↦
          between_round b.pointer_width N (h % N) ((h + d) % N) _ _ d
            (index_round N h d (omega arith) (omega (arith, slot-lt g h))) (omega arith)
            (omega (arith, g.addressable)) (omega (arith, slot-lt g h))
    ])
  ]
