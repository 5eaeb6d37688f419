-- ===== src/Drop/All.antt =====
-- Dropping a queue runs the destructor of each value that it holds, once and in order.
use nure_queue.Common.{
  ℕ, suc, ◌+◌, ◌-◌, ◌%◌, ◌^◌, ◌≤◌, ◌<◌, ◌≡◌, refl, sym, subst, ap, ap₂, ◌∙◌, true, List, [], ◌∷◌,
  none, some, length, get_elem?, get_elem?-lt, lt→ltb, le→not-ltb, dec_lt, arith,
}
use nure_queue.Target.{Build}
use nure_queue.Lap.{index_of}
use nure_queue.Lap.Geometry.{Geometry}
use nure_queue.Lap.Ticket.{slot-lt, index_of-position}
use nure_queue.Lap.Distance.{index_near, index_round, sub_wrap}
use nure_queue.Slot.{drop_value}
use nure_queue.Queue.{Queue}
use nure_queue.Thread.Step.Laws.{put_slot, put_slot_self, put_slot_ne}
use nure_queue.Solo.Holds.{Holds, slot-ne}
use nure_queue.Solo.Observe.{length_lem}
use nure_queue.Drop.{drop_index, drop_at, also, drop_loop, drop}
use native.Mathlib.Nat.{mod-eq_of_lt, mod-add-mod, add-mod-mod, add-mod_right, add-zero}

-- A slot that holds a value, whatever its stamp, and one that holds none.
abbrev Live {ℓ} : {A : Type ℓ} → Queue A → ℕ → A → Type ℓ
Live q i x = (n : ℕ) × (q.buffer i ≡ some (record { stamp = n; value = some x }))

abbrev pub Vacant {ℓ} : {A : Type ℓ} → Queue A → ℕ → Type ℓ
Vacant q i = (n : ℕ) × (q.buffer i ≡ some (record { stamp = n; value = none }))

-- The values in the slots from that of ticket `h` on; the other slots are vacant.
record Window {ℓ} {A : Type ℓ} (N h : ℕ) (xs : List A) (q : Queue A) : Type ℓ where
  fits : length xs ≤ N
  live : (j : ℕ) (x : A) → get_elem? xs j ≡ some x → Live q ((h + j) % N) x
  vacant : (j : ℕ) → length xs ≤ j → j < N → Vacant q ((h + j) % N)

Holds-Window {ℓ} :
    {A : Type ℓ} {b : Build} {N L : ℕ} {g : Geometry b N L} {h : ℕ} {xs : List A} {q : Queue A}
    → Holds g h xs q
    → Window N h xs q
Holds-Window v = record {
  fits = v.fits;
  live = λ j x e. (_, v.full j x e);
  vacant = λ j below lt. (_, v.free j below lt);
}

-- The first value is dropped: the window moves on by a slot.
module _ {ℓ} {A : Type ℓ} {b : Build} {N L : ℕ} (g : Geometry b N L) {h : ℕ} {x : A} {xs : List A}
    {q : Queue A} (v : Window N h (x ∷ xs) q) (n : ℕ) where
  open v use {fits, live, vacant}

  dropped : Queue A
  dropped = put_slot q (h % N) (record { stamp = n; value = none })

  behind : (j : ℕ) → suc j < N → dropped.buffer ((suc h + j) % N) ≡ q.buffer ((h + suc j) % N)
  unfolding dropped
  behind j lt =
      ap (λ k. dropped.buffer (k % N)) {x = suc h + j} {y = h + suc j} (omega arith)
      ∙ put_slot_ne q (h % N) _ ((h + suc j) % N) (λ e.
        slot-ne g h (suc j) 0 lt (omega arith) (omega arith) (e ∙ ap (λ k. k % N) (omega arith)))

  Vacant-dropped : (j : ℕ) → length xs ≤ j → j < N → Vacant dropped ((suc h + j) % N)
  unfolding dropped
  Vacant-dropped j below lt = elim (dec_lt (suc j) N) [
    | yes more ↦ let (m, e) = vacant (suc j) (omega arith) more in (m, behind j more ∙ e)
    | no last ↦
        let round : suc h + j ≡ h + N = omega arith in
        (
          n,
          ap (λ k. dropped.buffer (k % N)) round
              ∙ ap dropped.buffer (add-mod_right h N)
              ∙ put_slot_self q (h % N) _,
        )
  ]

  dropped-Window : Window N (suc h) xs dropped
  dropped-Window = record {
    fits = omega arith;
    live = λ j y e.
        let (m, found) = live (suc j) y e in
        (m, behind j (omega (arith, get_elem?-lt xs j y e)) ∙ found);
    vacant = Vacant-dropped;
  }

-- The index of round `i` of the loop is that of the `i`-th ticket from `h` on.
drop_index-slot :
    {b : Build} {N L : ℕ} (g : Geometry b N L) (h i : ℕ)
    → i < N
    → drop_index b N (h % N) i ≡ (h + i) % N
unfolding drop_index
drop_index-slot {b} {N} g h i lt = elim (dec_lt (h % N + i) N) [
  | yes near ↦ rw (sum, lt→ltb (h % N + i) N near) (sym (index_near N h i near))
  | no far ↦
      rw (sum, le→not-ltb (h % N + i) N (omega arith))
        (sub_wrap (2 ^ b.pointer_width) (h % N + i) N ((h + i) % N)
          (omega (arith, index_round N h i (omega arith) (omega (arith, slot-lt g h))))
          (omega (arith, slot-lt g (h + i), g.addressable)))
]
  where
    sum : (h % N + i) % 2 ^ b.pointer_width ≡ h % N + i
    sum = mod-eq_of_lt (omega (arith, slot-lt g h, g.addressable))

drop_at-live {ℓ} :
    {A : Type ℓ} (q : Queue A) (i n : ℕ) (x : A)
    → q.buffer i ≡ some (record { stamp = n; value = some x })
    → drop_at i q ≡ some (x, put_slot q i (record { stamp = n; value = none }))
unfolding drop_at drop_value
drop_at-live q i n x e = rw (e, drop_at)

module _ {ℓ} {A : Type ℓ} {b : Build} {N L : ℕ} (g : Geometry b N L) (h : ℕ) where
  drop_round :
      (rounds i n : ℕ) (q : Queue A) (x : A) {xs : List A} {q' : Queue A}
      → i < N
      → q.buffer ((h + i) % N) ≡ some (record { stamp = n; value = some x })
      → drop_loop b N
          (h % N)
          rounds
          (i + 1)
          (put_slot q ((h + i) % N) (record { stamp = n; value = none }))
        ≡ some (xs, q')
      → drop_loop b N (h % N) (suc rounds) i q ≡ some (x ∷ xs, q')
  unfolding drop_loop
  drop_round rounds i n q x lt found rest =
      rw (drop_index-slot g h i lt, drop_at-live q ((h + i) % N) n x found, drop_loop)
        (ap (also x) rest)

  drop_all :
      (i : ℕ) (xs : List A) {q : Queue A}
      → i + length xs ≤ N
      → Window N (h + i) xs q
      → (k : ℕ) × (q' : Queue A) × (drop_loop b N (h % N) (length xs) i q ≡ some (xs, q'))
        × Window N k [] q'
  unfolding drop_loop dropped
  drop_all i [] {q} room v = (h + i, q, refl, v)
  drop_all i (x ∷ xs) {q} room v =
      let (n, found) = v.live 0 x refl in
      let here : (h + i + 0) % N ≡ (h + i) % N = ap (λ k. k % N) (add-zero (h + i)) in
      let on : suc (h + i) ≡ h + (i + 1) = omega arith in
      let (k, q', runs, end) =
        drop_all (i + 1) xs (omega arith)
          (subst (λ m. Window N m xs (dropped g v n)) on (dropped-Window g v n)) in
      (
        k,
        q',
        drop_round (length xs) i n q x (omega arith) (ap q.buffer (sym here) ∙ found) runs,
        end,
      )

-- Every slot is that of one of `N` tickets in a row.
slot_reached :
    {b : Build} {N L : ℕ} (g : Geometry b N L) (h i : ℕ)
    → i < N
    → (j : ℕ) × (j < N) × ((h + j) % N ≡ i)
slot_reached {N} g h i lt =
    let j = i + N - h % N in
    (
      j % N,
      slot-lt g j,
      add-mod-mod h j N
          ∙ sym (mod-add-mod h N j)
          ∙ ap (λ k. k % N) {x = h % N + j} {y = i + N} (omega (arith, slot-lt g h))
          ∙ add-mod_right i N
          ∙ mod-eq_of_lt lt,
    )

-- Dropping a queue that holds `xs`, of a type that needs it, runs the destructor of each of the values
-- once, the oldest first, reads no slot that holds none, and leaves none behind in the buffer.
pub drop_lem {ℓ} :
    {A : Type ℓ} {b : Build} {N L : ℕ} (g : Geometry b N L) {h : ℕ} {xs : List A} {q : Queue A}
    → Holds g h xs q
    → (q' : Queue A) × (drop b N true q ≡ some (xs, q')) × ((i : ℕ) → i < N → Vacant q' i)
unfolding drop
drop_lem {b} {N} g {h} {xs} {q} v =
    let (k, q', runs, end) =
      drop_all g h 0 xs (omega (arith, v.fits))
        (subst (λ m. Window N m xs q) (sym (add-zero h)) (Holds-Window v)) in
    let index : index_of b q.one_lap q.head ≡ h % N =
      ap₂ (index_of b) v.lap v.head ∙ index_of-position g h in
    (
      q',
      ap₂ (λ i n. drop_loop b N i n 0 q) index (length_lem v) ∙ runs,
      λ i lt.
          let (j, near, e) = slot_reached g k i lt in
          subst (Vacant q') e (end.vacant j (omega arith) near),
    )
