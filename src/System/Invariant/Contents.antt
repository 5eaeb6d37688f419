-- ===== src/System/Invariant/Contents.antt =====
-- What the queue holds by the specification, when a ticket is taken.
use nure_queue.Common.{
  ℕ, zero, suc, ◌+◌, ◌-◌, ◌≤◌, ◌<◌, ◌≡◌, refl, sym, ap, ap₂, ◌∙◌, [], ◌∷◌, ◌++◌, Option, none, some,
  length, arith,
}
use nure_queue.Common.{get_elem?}
use nure_queue.System.Invariant.Defs.{Ghost, values_from, contents}
use native.Mathlib.Nat.{add-zero}

module _ {A : Type 0} where
  values_from-some :
      (value : ℕ → Option A) (n d : ℕ) (v : A)
      → value n ≡ some v
      → values_from value n (suc d) ≡ v ∷ values_from value (n + 1) d
  values_from-some value n d v e =
      ap
        (λ o. elim o [
          | none ↦ values_from value (n + 1) d
          | some u ↦ u ∷ values_from value (n + 1) d
        ])
        e

  pub length-values_from :
      (value : ℕ → Option A) (n d : ℕ)
      → ((j : ℕ) → n ≤ j → j < n + d → (v : A) × (value j ≡ some v))
      → length (values_from value n d) ≡ d
  length-values_from value n zero h = refl
  length-values_from value n (suc d) h =
      let (v, e) = h n (omega arith) (omega arith) in
      ap length (values_from-some value n d v e)
      ∙ ap suc (length-values_from value (n + 1) d (λ j le lt. h j (omega arith) (omega arith)))

  -- The tickets' values alone count.
  pub values_from-eq :
      (u w : ℕ → Option A) (n d : ℕ)
      → ((j : ℕ) → n ≤ j → j < n + d → w j ≡ u j)
      → values_from w n d ≡ values_from u n d
  values_from-eq u w n zero h = refl
  values_from-eq u w n (suc d) h =
      ap₂ (λ o vs. elim o [ none ↦ vs | some v ↦ v ∷ vs ]) (h n (omega arith) (omega arith))
        (values_from-eq u w (n + 1) d (λ j le lt. h j (omega arith) (omega arith)))

  -- The newest value.
  pub values_from-last :
      (value : ℕ → Option A) (n d : ℕ) (w : A)
      → ((j : ℕ) → n ≤ j → j < n + d → (v : A) × (value j ≡ some v))
      → value (n + d) ≡ some w
      → values_from value n (suc d) ≡ values_from value n d ++ (w ∷ [])
  values_from-last value n zero w h e =
      values_from-some value n 0 w (ap value (sym (add-zero n)) ∙ e)
  values_from-last value n (suc d) w h e =
      let (v, is) = h n (omega arith) (omega arith) in
      values_from-some value n (suc d) v is
      ∙ ap (λ vs. v ∷ vs)
          (values_from-last value (n + 1) d w (λ j le lt. h j (omega arith) (omega arith))
            (ap value {x = n + 1 + d} {y = n + suc d} (omega arith) ∙ e))
      ∙ ap (λ vs. vs ++ (w ∷ [])) (sym (values_from-some value n d v is))

  -- The value at an index is that of its ticket.
  pub get_elem?-values_from :
      (value : ℕ → Option A) (n d : ℕ)
      → ((j : ℕ) → n ≤ j → j < n + d → (v : A) × (value j ≡ some v))
      → (j : ℕ) (w : A) → get_elem? (values_from value n d) j ≡ some w
      → value (n + j) ≡ some w
  get_elem?-values_from value n zero h j w e = cc
  get_elem?-values_from value n (suc d) h zero w e =
      let (v, is) = h n (omega arith) (omega arith) in
      ap value {x = n + 0} {y = n} (omega arith)
      ∙ is
      ∙ ap (λ vs. get_elem? vs 0) (sym (values_from-some value n d v is))
      ∙ e
  get_elem?-values_from value n (suc d) h (suc j) w e =
      let (v, is) = h n (omega arith) (omega arith) in
      ap value {x = n + suc j} {y = n + 1 + j} (omega arith)
      ∙ get_elem?-values_from value (n + 1) d (λ j le lt. h j (omega arith) (omega arith)) j w
          (ap (λ vs. get_elem? vs (suc j)) (sym (values_from-some value n d v is)) ∙ e)

module _ {A : Type 0} (x : Ghost A) (known : (n : ℕ) → n < x.puts → (v : A) × (x.value n ≡ some v))
    (ordered : x.takes ≤ x.puts) where
  pub length-contents : length (contents x) ≡ x.puts - x.takes
  length-contents =
      length-values_from x.value x.takes (x.puts - x.takes) (λ j le lt. known j (omega arith))

  -- A push has taken the next ticket for the value `w`.
  pub contents_put :
      (y : Ghost A) (w : A)
      → y.takes ≡ x.takes
      → y.puts ≡ x.puts + 1
      → ((n : ℕ) → n < x.puts → y.value n ≡ x.value n)
      → y.value x.puts ≡ some w
      → contents y ≡ contents x ++ (w ∷ [])
  contents_put y w et ep same new =
      let count : y.puts - y.takes ≡ suc (x.puts - x.takes) = omega arith in
      ap₂ (values_from y.value) et count
      ∙ values_from-last y.value x.takes (x.puts - x.takes) w
          (λ j le lt. let (v, is) = known j (omega arith) in (v, same j (omega arith) ∙ is))
          (ap y.value {x = x.takes + (x.puts - x.takes)} {y = x.puts} (omega arith) ∙ new)
      ∙ ap (λ vs. vs ++ (w ∷ []))
          (values_from-eq x.value y.value x.takes (x.puts - x.takes)
            (λ j le lt. same j (omega arith)))

  -- The oldest value, where there is one.
  pub contents_take :
      (old : A)
      → x.takes < x.puts
      → x.value x.takes ≡ some old
      → contents x ≡ old ∷ values_from x.value (x.takes + 1) (x.puts - (x.takes + 1))
  contents_take old lt is =
      ap (values_from x.value x.takes) {x = x.puts - x.takes} {y = suc (x.puts - (x.takes + 1))}
        (omega arith)
      ∙ values_from-some x.value x.takes (x.puts - (x.takes + 1)) old is
