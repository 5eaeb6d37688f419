-- ===== src/Atomic/Account.antt =====
-- What becomes of the values that are passed to the methods: each is in the list, with a method that has
-- not returned, or given back by one. Values are counted by any weight, such as 1 for one value and 0 for
-- the others.
use nure_queue.Common.{
  ℕ, zero, suc, ◌+◌, ◌<◌, ◌≡◌, ◌≢◌, refl, sym, ap, List, [], ◌∷◌, ◌++◌, Option, none, some, arith,
  ℕ_discrete,
}
use nure_queue.Thread.{Reply, rejected, option, Call}
use nure_queue.Atomic.{
  Status, calling, measured, replacing, answered, Act, wait, put, reject, ring_put, replace_take,
  replace_put, take, take_none, see_empty, see_full, measure, measure_again, answer_count, Atomic,
  Event, AtomicStep, AtomicTrace, start, later,
}

-- The sum over the threads below `n`.
abbrev pub sum_below : ℕ → (ℕ → ℕ) → ℕ
sum_below zero f = 0
sum_below (suc n) f = f n + sum_below n f

pub sum_below-eq :
    (n : ℕ) (f f' : ℕ → ℕ) → ((j : ℕ) → j < n → f' j ≡ f j) → sum_below n f' ≡ sum_below n f
sum_below-eq zero f f' same = refl
sum_below-eq (suc n) f f' same =
    omega (arith, same n (omega arith), sum_below-eq n f f' (λ j lt. same j (omega arith)))

-- One thread changes.
pub sum_below-change :
    (n : ℕ) (f f' : ℕ → ℕ) (i : ℕ)
    → i < n
    → ((j : ℕ) → j ≢ i → f' j ≡ f j)
    → sum_below n f' + f i ≡ sum_below n f + f' i
sum_below-change zero f f' i lt others = absurd (omega arith)
sum_below-change (suc n) f f' i lt others = elim (ℕ_discrete i n) [
  | yes e ↦
      omega (arith, ap f e, ap f' e, sum_below-eq n f f' (λ j lt. others j (λ q. omega (arith, e))))
  | no ne ↦
      omega
        (arith, others n (λ e. ne (sym e)), sum_below-change n f f' i (omega (arith, ne)) others)
]

module _ {A : Type 0} (w : A → ℕ) where
  abbrev pub weight : List A → ℕ
  weight [] = 0
  weight (x ∷ xs) = w x + weight xs

  abbrev pub in_option : Option A → ℕ
  in_option none = 0
  in_option (some x) = w x

  -- What a call passes to the method, and what a reply gives back.
  abbrev pub in_call : Call A → ℕ
  in_call (Call.push v) = w v
  in_call (Call.force_push v) = w v
  in_call c = 0

  abbrev pub in_reply : Reply A → ℕ
  in_reply (rejected v) = w v
  in_reply (option o) = in_option o
  in_reply r = 0

  -- What a method holds until it returns.
  abbrev pub in_status : Status A → ℕ
  in_status (calling c) = in_call c
  in_status (measured k) = 0
  in_status (replacing v o) = w v + in_option o
  in_status (answered r) = in_reply r

  -- The calls of a history, and its replies.
  abbrev pub passed : List (Event A) → ℕ
  passed [] = 0
  passed ((i, r, c) ∷ h) = in_call c + passed h

  abbrev pub given_back : List (Event A) → ℕ
  given_back [] = 0
  given_back ((i, r, c) ∷ h) = in_reply r + given_back h

  weight-append : (xs ys : List A) → weight (xs ++ ys) ≡ weight xs + weight ys
  weight-append [] ys = omega arith
  weight-append (x ∷ xs) ys = omega (arith, weight-append xs ys)

  -- An action moves values between a method and the list.
  Act-weight :
      {N : ℕ} {xs ys : List A} {s s' : Status A}
      → Act N xs s ys s'
      → weight ys + in_status s' ≡ weight xs + in_status s
  Act-weight wait = refl
  Act-weight (put {xs} v lt) = omega (arith, weight-append xs (v ∷ []))
  Act-weight (reject v e) = refl
  Act-weight (ring_put {xs} v lt) = omega (arith, weight-append xs (v ∷ []))
  Act-weight (replace_take v old e) = omega arith
  Act-weight (replace_put {xs} v o lt) = omega (arith, weight-append xs (v ∷ []))
  Act-weight (take v) = omega arith
  Act-weight take_none = refl
  Act-weight (see_empty f e) = refl
  Act-weight (see_full f e) = refl
  Act-weight measure = refl
  Act-weight (measure_again k) = refl
  Act-weight (answer_count k) = refl

  pub AtomicTrace-weight :
      {N n : ℕ} {first : ℕ → Call A} {h : List (Event A)} {t : Atomic A}
      → AtomicTrace N n first h t
      → sum_below n (λ i. in_call (first i)) + passed h
        ≡ given_back h + weight t.contents + sum_below n (λ i. in_status (t.status i))
  AtomicTrace-weight start = omega arith
  AtomicTrace-weight {n = n} (later {s = s} {t = t} r (AtomicStep.act i lt a others)) = omega (
    arith,
    AtomicTrace-weight r,
    Act-weight a,
    sum_below-change n (λ j. in_status (s.status j)) (λ j. in_status (t.status j)) i lt
        (λ j ne. ap in_status (others j ne)),
  )
  AtomicTrace-weight {n = n}
        (later {s = s} {t = t} r (AtomicStep.call i reply c lt before now others same)) =
      omega (
        arith,
        AtomicTrace-weight r,
        ap in_status before,
        ap in_status now,
        ap weight same,
        sum_below-change n (λ j. in_status (s.status j)) (λ j. in_status (t.status j)) i lt
            (λ j ne. ap in_status (others j ne)),
      )
