-- ===== src/Atomic/Exact/Measured.antt =====
-- Atomic.Exact with a `len` that may count several times and answers with its last count.
use nure_queue.Common.{
  ℕ, zero, suc, ◌≤◌, ◌<◌, ◌≡◌, ◌≢◌, refl, sym, subst, ◌∙◌, List, [], ◌∷◌, true, false, length,
  lt→ltb, le→not-ltb, eq→==, ne→not-==, ℕ_discrete, arith,
}
use nure_queue.Common.Family.{update, update_self, update_ne}
use nure_queue.Thread.{Reply, Call, flag, count}
use nure_queue.Fifo
use nure_queue.Atomic.{
  Status, calling, measured, answered, Event, Act, wait, put, reject, ring_put, replace_take,
  replace_put, take, take_none, see_empty, see_full, measure, measure_again, answer_count,
}
use nure_queue.Atomic.Exact.{Exact, idle, whole, first_half, second_half, ActionTrace, act}

pub data Measured {A : Type 0} (N : ℕ) : List A → Status A → List A → Status A → Type 0 where
  fifo : {xs ys : List A} {s s' : Status A} → Exact N xs s ys s' → Measured N xs s ys s'
  count_first : {xs : List A} → Measured N xs (calling Call.len) xs (measured (length xs))
  count_again : {xs : List A} (k : ℕ) → Measured N xs (measured k) xs (measured (length xs))
  count_answer : {xs : List A} (k : ℕ) → Measured N xs (measured k) xs (answered (count k))

module _ {A : Type 0} {N : ℕ} where
  as_answer :
      (c : Call A) (xs : List A) {r : Reply A} {ys : List A}
      → Fifo.answer N c xs ≡ (r, ys)
      → Exact N xs (calling c) ys (answered r)
  as_answer c xs e = subst (λ z. Exact N xs (calling c) z.1 (answered z.0)) e (whole c)

  pub see_false :
      {xs : List A} → 0 < length xs → Exact N xs (calling Call.is_empty) xs (answered (flag false))
  unfolding Fifo.answer
  see_false {xs} some_left =
      as_answer Call.is_empty xs (rw (ne→not-== (length xs) 0 (omega (arith, some_left))) refl)

  pub see_true :
      {xs : List A} → length xs ≡ 0 → Exact N xs (calling Call.is_empty) xs (answered (flag true))
  unfolding Fifo.answer
  see_true {xs} e = as_answer Call.is_empty xs (rw (eq→== (length xs) 0 e) refl)

  pub full_false :
      {xs : List A} → length xs < N → Exact N xs (calling Call.is_full) xs (answered (flag false))
  unfolding Fifo.answer
  full_false {xs} room =
      as_answer Call.is_full xs (rw (ne→not-== (length xs) N (omega (arith, room))) refl)

  pub full_true :
      {xs : List A} → length xs ≡ N → Exact N xs (calling Call.is_full) xs (answered (flag true))
  unfolding Fifo.answer
  full_true {xs} e = as_answer Call.is_full xs (rw (eq→== (length xs) N e) refl)

  -- Of the actions of Atomic, all but those of `is_empty` and `is_full` are of this kind.
  pub Act-Measured :
      {xs ys : List A} {s s' : Status A}
      → Act N xs s ys s'
      → s ≢ calling Call.is_empty
      → s ≢ calling Call.is_full
      → Measured N xs s ys s'
  unfolding Fifo.answer Fifo.push Fifo.pop Fifo.force_push
  Act-Measured wait one two = fifo idle
  Act-Measured (put {xs} v lt) one two =
      fifo (as_answer (Call.push v) xs (rw (lt→ltb (length xs) N lt) refl))
  Act-Measured (reject {xs} v e) one two =
      fifo (as_answer (Call.push v) xs (rw (le→not-ltb (length xs) N (omega (arith, e))) refl))
  Act-Measured (ring_put {xs} v lt) one two =
      fifo
        (as_answer (Call.force_push v) xs (rw (ne→not-== (length xs) N (omega (arith, lt))) refl))
  Act-Measured (replace_take v old e) one two = fifo (first_half v old e)
  Act-Measured (replace_put v o lt) one two = fifo (second_half v o lt)
  Act-Measured (take {xs} v) one two = fifo (whole {xs = v ∷ xs} Call.pop)
  Act-Measured take_none one two = fifo (whole {xs = []} Call.pop)
  Act-Measured (see_empty f e) one two = absurd (one refl)
  Act-Measured (see_full f e) one two = absurd (two refl)
  Act-Measured measure one two = count_first
  Act-Measured (measure_again k) one two = count_again k
  Act-Measured (answer_count k) one two = count_answer k

  -- An action that leaves a method called has not touched it.
  pub Act-calling :
      {xs ys : List A} {s s' : Status A} (c : Call A)
      → Act N xs s ys s'
      → s' ≡ calling c
      → s ≡ calling c
  Act-calling c wait e = e
  Act-calling c (put v lt) e = cc
  Act-calling c (reject v full) e = cc
  Act-calling c (ring_put v lt) e = cc
  Act-calling c (replace_take v old full) e = cc
  Act-calling c (replace_put v o lt) e = cc
  Act-calling c (take v) e = cc
  Act-calling c take_none e = cc
  Act-calling c (see_empty f h) e = cc
  Act-calling c (see_full f h) e = cc
  Act-calling c measure e = cc
  Act-calling c (measure_again k) e = cc
  Act-calling c (answer_count k) e = cc

module _ {A : Type 0} {N n : ℕ} {first : ℕ → Call A} {h : List (Event A)} {xs : List A} where
  sweep_below :
      (P : ℕ → Status A → Type 0) (k : ℕ) {e : ℕ → Status A}
      → k ≤ n
      → ActionTrace (Measured N) n first h xs e
      → ((j : ℕ) → j < n → (s : Status A) × Measured N xs (e j) xs s × P j s)
      → (e' : ℕ → Status A) × ActionTrace (Measured N) n first h xs e'
        × ((j : ℕ) → j < k → P j (e' j))
        × ((j : ℕ) → k ≤ j → e' j ≡ e j)
  sweep_below P zero {e} le r may = (e, r, λ j lt. absurd (omega arith), λ j le. refl)
  sweep_below P (suc k) {e} le r may =
      let (e', r', new, old) = sweep_below P k (omega arith) r may in
      let (s, a, good) = may k (omega arith) in
      (
        update e' k s,
        act k (omega arith) r' (subst (λ z. Measured N xs z xs s) (sym (old k (omega arith))) a),
        λ j lt. elim (ℕ_discrete k j) [
          | yes here ↦
              subst (λ m. P m (update e' k s m)) here
                (subst (P k) (sym (update_self e' s k k refl)) good)
          | no ne ↦ subst (P j) (sym (update_ne e' s k j ne)) (new j (omega (arith, ne)))
        ],
        λ j le. update_ne e' s k j (omega arith) ∙ old j (omega arith),
      )

  -- Each thread makes one action that leaves the list as it is.
  pub sweep :
      (P : ℕ → Status A → Type 0) {e : ℕ → Status A}
      → ActionTrace (Measured N) n first h xs e
      → ((j : ℕ) → j < n → (s : Status A) × Measured N xs (e j) xs s × P j s)
      → (e' : ℕ → Status A) × ActionTrace (Measured N) n first h xs e'
        × ((j : ℕ) → j < n → P j (e' j))
  sweep P r may = let (e', r', new, _) = sweep_below P n (omega arith) r may in (e', r', new)
