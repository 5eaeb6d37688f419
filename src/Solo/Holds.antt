-- ===== src/Solo/Holds.antt =====
-- What a queue holds while no thread is inside it: a list of values, the oldest under ticket `h`.
use nure_queue.Common.{
  ℕ, suc, ◌+◌, ◌*◌, ◌%◌, ◌^◌, ◌≤◌, ◌<◌, ◌≡◌, ◌≢◌, refl, sym, ap, ap₂, ◌∙◌, List, [], ◌∷◌, ◌++◌,
  none, some, length, get_elem?, length-append, get_elem?-append_left, get_elem?-append_last,
  get_elem?-lt, dec_lt, arith,
}
use nure_queue.Common.Div.{mod_injective}
use nure_queue.Target.{Build, index_bits, as_index}
use nure_queue.Target.Bounds.{pow-pointer_width-le}
use nure_queue.Lap.Geometry.{Geometry}
use nure_queue.Lap.Ticket.{position}
use nure_queue.Queue.{Queue, empty_queue}
use nure_queue.Queue.New.{fill_lem}
use native.Mathlib.Nat.{mod-eq_of_lt, zero-mod, div-eq_of_lt, mod-lt, add-mod_right}

-- The slots of the tickets from `h` on: one for each value, with the stamp after its ticket; the rest of
-- the lap uninitialized, with the stamp of the ticket to come.
pub record Holds {ℓ} {A : Type ℓ} {b : Build} {N L : ℕ} (g : Geometry b N L) (h : ℕ) (xs : List A)
    (q : Queue A) : Type ℓ where
  pub lap : q.one_lap ≡ L
  pub head : q.head ≡ position g h
  pub tail : q.tail ≡ position g (h + length xs)
  pub fits : length xs ≤ N
  pub full :
      (j : ℕ) (x : A)
      → get_elem? xs j ≡ some x
      → q.buffer ((h + j) % N) ≡ some (record { stamp = position g (h + j) + 1; value = some x })
  pub free :
      (j : ℕ)
      → length xs ≤ j
      → j < N
      → q.buffer ((h + j) % N) ≡ some (record { stamp = position g (h + j); value = none })

module _ {b : Build} {N L : ℕ} (g : Geometry b N L) where
  -- Tickets of one lap have different slots.
  slot-ne_of_lt : (h i j : ℕ) → i < j → j < N → (h + i) % N ≢ (h + j) % N
  slot-ne_of_lt h i j lt fits e =
      absurd (omega (arith, mod_injective N (h + i) (h + j) (omega arith) (omega arith) e))

  pub slot-ne : (h i j : ℕ) → i < N → j < N → i ≢ j → (h + i) % N ≢ (h + j) % N
  slot-ne h i j hi hj ne e = elim (dec_lt i j) [
    | yes lt ↦ slot-ne_of_lt h i j lt hj e
    | no ge ↦ slot-ne_of_lt h j i (omega arith) hi (sym e)
  ]

  -- The first lap: ticket `j` has index `j`, and its position is that number.
  position_small : (j : ℕ) → j < N → (j % N ≡ j) × (position g j ≡ j)
  position_small j h = (
    mod-eq_of_lt h,
    ap₂ (λ q r. q % g.laps * L + r) (div-eq_of_lt h) (mod-eq_of_lt h)
        ∙ ap (λ z. z * L + j) (zero-mod g.laps)
        ∙ omega arith,
  )

  -- An index fits a word of `Index`.
  word-lt : (k : ℕ) → k % N < 2 ^ index_bits b
  word-lt k = omega (arith, mod-lt k g.cap_pos, g.addressable, pow-pointer_width-le g.target)

  first_lap {ℓ} :
      {A : Type ℓ} (j : ℕ)
      → 0 ≤ j
      → j < N
      → (empty_queue {A = A} b N L).buffer ((0 + j) % N)
        ≡ some (record { stamp = position g (0 + j); value = none })
  unfolding empty_queue as_index
  first_lap j _ h =
      fill_lem b N 0 ((0 + j) % N) _ (omega arith) (omega (arith, mod-lt (0 + j) g.cap_pos))
      ∙ ap (λ n. some (record { stamp = n; value = none }))
          (mod-eq_of_lt (word-lt (0 + j)) ∙ small.0 ∙ sym small.1)
    where
      small : ((0 + j) % N ≡ 0 + j) × (position g (0 + j) ≡ 0 + j)
      small = position_small (0 + j) (omega arith)

  pub empty_queue-Holds {ℓ} : (A : Type ℓ) → Holds g 0 [] (empty_queue {A = A} b N L)
  unfolding empty_queue as_index
  empty_queue-Holds A = record {
    lap = refl;
    head = sym (position_small 0 g.cap_pos).1;
    tail = sym (position_small 0 g.cap_pos).1;
    fits = omega arith;
    full = λ j x e. cc;
    free = first_lap;
  }

module _ {ℓ} {A : Type ℓ} {b : Build} {N L : ℕ} {g : Geometry b N L} {h : ℕ} {xs : List A}
    {q : Queue A} (v : Holds g h xs q) where
  open v use {lap, head, tail, fits, full, free}

  -- The slot of the next push.
  abbrev pub next_slot : ℕ
  next_slot = (h + length xs) % N

  full_after_push :
      (x : A) (q' : Queue A)
      → length xs < N
      → q'.buffer next_slot
        ≡ some (record { stamp = position g (h + length xs) + 1; value = some x })
      → ((i : ℕ) → i ≢ next_slot → q'.buffer i ≡ q.buffer i)
      → (j : ℕ) (y : A) → get_elem? (xs ++ (x ∷ [])) j ≡ some y
      → q'.buffer ((h + j) % N) ≡ some (record { stamp = position g (h + j) + 1; value = some y })
  full_after_push x q' room new old j y e = elim (dec_lt j (length xs)) [
    | yes lt ↦
        old _ (slot-ne g h j (length xs) (omega arith) room (omega arith))
        ∙ full j y (sym (get_elem?-append_left xs (x ∷ []) j lt) ∙ e)
    | no ge ↦
        let (last, same) = get_elem?-append_last xs x j y (omega arith) e in
        ap (λ k. q'.buffer ((h + k) % N)) last
        ∙ new
        ∙ ap₂ (λ k z. some (record { stamp = position g (h + k) + 1; value = some z })) (sym last)
            same
  ]

  -- A queue that differs by one more value behind the last.
  pub after_push :
      (x : A) (q' : Queue A)
      → length xs < N
      → q'.one_lap ≡ q.one_lap
      → q'.head ≡ q.head
      → q'.tail ≡ position g (suc (h + length xs))
      → q'.buffer next_slot
        ≡ some (record { stamp = position g (h + length xs) + 1; value = some x })
      → ((i : ℕ) → i ≢ next_slot → q'.buffer i ≡ q.buffer i)
      → Holds g h (xs ++ (x ∷ [])) q'
  after_push x q' room l hd tl new old = record {
    lap = l ∙ lap;
    head = hd ∙ head;
    tail = tl ∙ ap (position g) (omega (arith, length-append xs (x ∷ [])));
    fits = omega (arith, length-append xs (x ∷ []));
    full = full_after_push x q' room new old;
    free = λ j below lt.
        old _ (slot-ne g h j (length xs) lt room (omega (arith, length-append xs (x ∷ []))))
        ∙ free j (omega (arith, length-append xs (x ∷ []))) lt;
  }

module _ {ℓ} {A : Type ℓ} {b : Build} {N L : ℕ} {g : Geometry b N L} {h : ℕ} {x : A} {xs : List A}
    {q : Queue A} (v : Holds g h (x ∷ xs) q) (q' : Queue A)
    (old : (i : ℕ) → i ≢ h % N → q'.buffer i ≡ q.buffer i) where
  open v use {lap, head, tail, fits, full, free}

  -- The slots behind the first keep what they hold.
  still : (j : ℕ) → suc j < N → q'.buffer ((suc h + j) % N) ≡ q.buffer ((h + suc j) % N)
  still j lt =
      ap (λ k. q'.buffer (k % N)) {x = suc h + j} {y = h + suc j} (omega arith) ∙ old _ apart
    where
      apart : (h + suc j) % N ≢ h % N
      apart e =
          slot-ne g h (suc j) 0 lt (omega arith) (omega arith) (e ∙ ap (λ k. k % N) (omega arith))

  full_after_pop :
      (j : ℕ) (y : A)
      → get_elem? xs j ≡ some y
      → q'.buffer ((suc h + j) % N)
        ≡ some (record { stamp = position g (suc h + j) + 1; value = some y })
  full_after_pop j y e =
      still j (omega (arith, get_elem?-lt xs j y e))
      ∙ full (suc j) y e
      ∙ ap (λ k. some (record { stamp = position g k + 1; value = some y })) (omega arith)

  free_after_pop :
      q'.buffer (h % N) ≡ some (record { stamp = position g (h + N); value = none })
      → (j : ℕ) → length xs ≤ j
      → j < N
      → q'.buffer ((suc h + j) % N) ≡ some (record { stamp = position g (suc h + j); value = none })
  free_after_pop emptied j below lt = elim (dec_lt (suc j) N) [
    | yes more ↦
        still j more
        ∙ free (suc j) (omega arith) more
        ∙ ap (λ k. some (record { stamp = position g k; value = none })) (omega arith)
    | no last ↦
        let round : suc h + j ≡ h + N = omega arith in
        ap (λ k. q'.buffer (k % N)) round
        ∙ ap q'.buffer (add-mod_right h N)
        ∙ emptied
        ∙ ap (λ k. some (record { stamp = position g k; value = none })) (sym round)
  ]

  -- A queue that differs by its first value taken out.
  pub after_pop :
      q'.one_lap ≡ q.one_lap
      → q'.head ≡ position g (suc h)
      → q'.tail ≡ q.tail
      → q'.buffer (h % N) ≡ some (record { stamp = position g (h + N); value = none })
      → Holds g (suc h) xs q'
  after_pop l hd tl emptied = record {
    lap = l ∙ lap;
    head = hd;
    tail = tl ∙ tail ∙ ap (position g) (omega arith);
    fits = omega arith;
    full = full_after_pop;
    free = free_after_pop emptied;
  }
