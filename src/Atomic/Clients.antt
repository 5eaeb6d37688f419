-- ===== src/Atomic/Clients.antt =====
-- Clients whose calls are covered by the replies that they have seen: the specification never gives a
-- value back to them, or never finds itself empty.
use nure_queue.Common.{
  ℕ, zero, suc, ◌+◌, ◌≤◌, ◌<◌, ◌≡◌, ◌≢◌, refl, sym, ap, ◌∙◌, ◌⊎◌, inl, inr, List, [], ◌∷◌, length,
  length-append, ℕ_discrete, arith,
}
use nure_queue.Thread.{Reply, pushed, rejected, Call}
use nure_queue.Atomic.{
  Status, calling, measured, replacing, answered, Act, wait, put, reject, ring_put, replace_take,
  replace_put, take, take_none, see_empty, see_full, measure, measure_again, answer_count, Atomic,
  Event, AtomicStep, AtomicTrace, start, later,
}
use nure_queue.Atomic.Account.{
  sum_below, sum_below-change, weight, in_call, in_status, passed, given_back, AtomicTrace-weight,
}

-- One thread counts no more than all.
le-sum_below : (n : ℕ) (f : ℕ → ℕ) (i : ℕ) → i < n → f i ≤ sum_below n f
le-sum_below zero f i lt = absurd (omega arith)
le-sum_below (suc n) f i lt = elim (ℕ_discrete i n) [
  | yes e ↦ omega (arith, ap f e)
  | no ne ↦ omega (arith, le-sum_below n f i (omega (arith, ne)))
]

module _ {A : Type 0} where
  abbrev pub one : A → ℕ
  one v = 1

  weight-one : (xs : List A) → weight one xs ≡ length xs
  weight-one [] = refl
  weight-one (x ∷ xs) = omega (arith, weight-one xs)

  -- What a call may take out, what a reply says was put in, and both for what a thread is at.
  abbrev pub may_take : Call A → ℕ
  may_take (Call.force_push v) = 1
  may_take Call.pop = 1
  may_take c = 0

  abbrev pub has_put : Reply A → ℕ
  has_put pushed = 1
  has_put r = 0

  abbrev at_stake : Status A → ℕ
  at_stake (calling c) = may_take c
  at_stake (measured k) = 0
  at_stake (replacing v o) = 0
  at_stake (answered r) = has_put r

  abbrev pub takes_begun : List (Event A) → ℕ
  takes_begun [] = 0
  takes_begun ((i, r, c) ∷ h) = may_take c + takes_begun h

  abbrev pub puts_seen : List (Event A) → ℕ
  puts_seen [] = 0
  puts_seen ((i, r, c) ∷ h) = has_put r + puts_seen h

module _ {A : Type 0} (N n : ℕ) (first : ℕ → Call A) where
  -- At each call, the values passed so far are at most `N` more than those that the replies before it
  -- gave back.
  abbrev pub Covered : List (Event A) → Type 0
  Covered [] = sum_below n (λ i. in_call one (first i)) ≤ N
  Covered (e ∷ h) =
      (sum_below n (λ i. in_call one (first i)) + passed one (e ∷ h) ≤ N + given_back one (e ∷ h))
      × Covered h

  -- At each call, the calls so far that may take a value out are at most the replies before it that say
  -- that one was put in.
  abbrev pub Backed : List (Event A) → Type 0
  Backed [] = sum_below n (λ i. may_take (first i)) ≤ 0
  Backed (e ∷ h) =
      (sum_below n (λ i. may_take (first i)) + takes_begun (e ∷ h) ≤ puts_seen (e ∷ h)) × Backed h

  takes-Backed :
      (h : List (Event A))
      → Backed h
      → sum_below n (λ i. may_take (first i)) + takes_begun h ≤ puts_seen h
  takes-Backed [] d = omega arith
  takes-Backed (e ∷ h) d = d.0

  values-Covered :
      (h : List (Event A))
      → Covered h
      → sum_below n (λ i. in_call one (first i)) + passed one h ≤ N + given_back one h
  values-Covered [] d = omega arith
  values-Covered (e ∷ h) d = d.0

module _ {A : Type 0} {N : ℕ} where
  Act-rejected :
      {xs ys : List A} {s s' : Status A} (v : A)
      → Act N xs s ys s'
      → s' ≡ answered (rejected v)
      → (s ≡ answered (rejected v)) ⊎ ((length xs ≡ N) × (s ≡ calling (Call.push v)))
  Act-rejected v wait e = inl e
  Act-rejected v (put w lt) e = cc
  Act-rejected v (reject w full) e = inr (full, cc)
  Act-rejected v (ring_put w lt) e = cc
  Act-rejected v (replace_take w old full) e = cc
  Act-rejected v (replace_put w o lt) e = cc
  Act-rejected v (take w) e = cc
  Act-rejected v take_none e = cc
  Act-rejected v (see_empty f h) e = cc
  Act-rejected v (see_full f h) e = cc
  Act-rejected v measure e = cc
  Act-rejected v (measure_again k) e = cc
  Act-rejected v (answer_count k) e = cc

  Act-stake :
      {xs ys : List A} {s s' : Status A}
      → Act N xs s ys s'
      → length xs + at_stake s' ≤ length ys + at_stake s
  Act-stake wait = omega arith
  Act-stake (put {xs} v lt) = omega (arith, length-append xs (v ∷ []))
  Act-stake (reject v e) = omega arith
  Act-stake (ring_put {xs} v lt) = omega (arith, length-append xs (v ∷ []))
  Act-stake (replace_take v old e) = omega arith
  Act-stake (replace_put {xs} v o lt) = omega (arith, length-append xs (v ∷ []))
  Act-stake (take v) = omega arith
  Act-stake take_none = omega arith
  Act-stake (see_empty f e) = omega arith
  Act-stake (see_full f e) = omega arith
  Act-stake measure = omega arith
  Act-stake (measure_again k) = omega arith
  Act-stake (answer_count k) = omega arith

module _ {A : Type 0} {N n : ℕ} {first : ℕ → Call A} where
  -- The list is as long as the puts seen and what is at stake want, less what has been taken.
  AtomicTrace-stake :
      {h : List (Event A)} {t : Atomic A}
      → AtomicTrace N n first h t
      → puts_seen h + sum_below n (λ i. at_stake (t.status i))
        ≤ sum_below n (λ i. may_take (first i)) + takes_begun h + length t.contents
  AtomicTrace-stake start = omega arith
  AtomicTrace-stake (later {s = s} {t = t} r (AtomicStep.act i lt a others)) = omega (
    arith,
    AtomicTrace-stake r,
    Act-stake a,
    sum_below-change n (λ j. at_stake (s.status j)) (λ j. at_stake (t.status j)) i lt
        (λ j ne. ap at_stake (others j ne)),
  )
  AtomicTrace-stake
        (later {s = s} {t = t} r (AtomicStep.call i reply c lt before now others same)) =
      omega (
        arith,
        AtomicTrace-stake r,
        ap at_stake before,
        ap at_stake now,
        ap length same,
        sum_below-change n (λ j. at_stake (s.status j)) (λ j. at_stake (t.status j)) i lt
            (λ j ne. ap at_stake (others j ne)),
      )

  -- A thread that is about to pop, of a client that is backed, finds a value.
  pub Backed-pop :
      {h : List (Event A)} {t : Atomic A}
      → AtomicTrace N n first h t
      → Backed N n first h
      → (i : ℕ) → i < n
      → t.status i ≡ calling Call.pop
      → 0 < length t.contents
  Backed-pop {h} {t} r d i lt st = omega (
    arith,
    AtomicTrace-stake r,
    takes-Backed N n first h d,
    ap at_stake st,
    le-sum_below n (λ j. at_stake (t.status j)) i lt,
  )

  -- A thread that is about to push, of a client that is covered, finds room.
  Covered-push :
      {h : List (Event A)} {t : Atomic A} (v : A)
      → AtomicTrace N n first h t
      → Covered N n first h
      → (i : ℕ) → i < n
      → t.status i ≡ calling (Call.push v)
      → length t.contents < N
  Covered-push {h} {t} v r d i lt st = omega (
    arith,
    AtomicTrace-weight one r,
    values-Covered N n first h d,
    ap (in_status one) st,
    weight-one t.contents,
    le-sum_below n (λ j. in_status one (t.status j)) i lt,
  )

  -- So no value is given back to a client that is covered.
  pub Covered-accepts :
      {h : List (Event A)} {t : Atomic A} (v : A)
      → AtomicTrace N n first h t
      → Covered N n first h
      → (i : ℕ) → i < n
      → t.status i ≢ answered (rejected v)
  Covered-accepts v start d i lt e = cc
  Covered-accepts v (later {s = s} {t = t} r (AtomicStep.act j lt' a others)) d i lt e =
      elim (ℕ_discrete i j) [
        | yes same ↦ elim (Act-rejected v a (ap t.status (sym same) ∙ e)) [
          | inl before ↦ Covered-accepts v r d j lt' before
          | inr (full, calls) ↦ omega (arith, Covered-push v r d j lt' calls)
        ]
        | no ne ↦ Covered-accepts v r d i lt (sym (others i ne) ∙ e)
      ]
  Covered-accepts v
        (later {h = h} {s = s} {t = t} r (AtomicStep.call j reply c lt' before now others same)) d i
        lt e =
      elim (ℕ_discrete i j) [
        | yes here ↦ cc (ap t.status (sym here), now, e)
        | no ne ↦ Covered-accepts v r d.1 i lt (sym (others i ne) ∙ e)
      ]
