-- ===== src/Atomic/Exact/Collapse.antt =====
-- The counts of `len` but for the last one can be left out, so that `len` too is one action.
use nure_queue.Common.{
  ℕ, ◌≡◌, ◌≢◌, refl, sym, ap, subst, ◌∙◌, List, Bool, true, false, length, ℕ_discrete,
}
use nure_queue.Common.Family.{update, update_self, update_ne}
use nure_queue.Thread.{Reply, Call, count}
use nure_queue.Fifo
use nure_queue.Atomic.{Status, calling, measured, answered, Event}
use nure_queue.Atomic.Exact.{
  Exact, idle, whole, first_half, second_half, ActionTrace, start, act, call, ExactTrace,
}
use nure_queue.Atomic.Exact.Measured.{Measured, fifo, count_first, count_again, count_answer}

module _ {A : Type 0} where
  -- A `len` that has counted, by whether this is its last count.
  abbrev pub collapsed : Bool → Status A → Status A
  collapsed true (measured k) = answered (count k)
  collapsed false (measured k) = calling Call.len
  collapsed last s = s

module _ {A : Type 0} {N : ℕ} where
  -- An action that counts nothing.
  Exact-collapsed :
      (last : Bool) {xs ys : List A} {s s' : Status A}
      → Exact N xs s ys s'
      → Exact N xs (collapsed last s) ys (collapsed last s')
  Exact-collapsed last idle = idle
  Exact-collapsed true (whole c) = whole c
  Exact-collapsed false (whole c) = whole c
  Exact-collapsed true (first_half v old e) = first_half v old e
  Exact-collapsed false (first_half v old e) = first_half v old e
  Exact-collapsed true (second_half v o lt) = second_half v o lt
  Exact-collapsed false (second_half v o lt) = second_half v o lt

  len_once :
      (last : Bool) (xs : List A)
      → Exact N xs (calling Call.len) xs (collapsed last (measured (length xs)))
  unfolding Fifo.answer
  len_once true xs = whole Call.len
  len_once false xs = idle

  -- Whether the count before an action is the last one of the thread, from whether that after it is.
  before :
      (last : Bool) {xs ys : List A} {s s' : Status A}
      → Measured N xs s ys s'
      → (earlier : Bool) × Exact N xs (collapsed earlier s) ys (collapsed last s')
  before last (fifo a) = (last, Exact-collapsed last a)
  before true {xs} count_first = (true, len_once true xs)
  before false {xs} count_first = (false, len_once false xs)
  before last {xs} (count_again k) = (false, len_once last xs)
  before true (count_answer k) = (true, idle)
  before false (count_answer k) = (true, idle)

module _ {A : Type 0} where
  collapsed-calling : (last : Bool) (c : Call A) → collapsed last (calling c) ≡ calling c
  collapsed-calling true c = refl
  collapsed-calling false c = refl

  pub collapsed-answered : (last : Bool) (r : Reply A) → collapsed last (answered r) ≡ answered r
  collapsed-answered true r = refl
  collapsed-answered false r = refl

  -- The statuses after thread `i` has gone on.
  agree :
      (last : ℕ → Bool) (e e' : ℕ → Status A) (i : ℕ) (s s' : Status A)
      → ((j : ℕ) → i ≢ j → e' j ≡ collapsed (last j) (e j))
      → s' ≡ collapsed (last i) s
      → (j : ℕ) → update e' i s' j ≡ collapsed (last j) (update e i s j)
  agree last e e' i s s' old new j = elim (ℕ_discrete i j) [
    | yes here ↦
        update_self e' s' i j here
        ∙ new
        ∙ ap (λ m. collapsed (last m) s) here
        ∙ ap (collapsed (last j)) (sym (update_self e s i j here))
    | no ne ↦
        update_ne e' s' i j ne ∙ old j ne ∙ ap (collapsed (last j)) (sym (update_ne e s i j ne))
  ]

module _ {A : Type 0} {N n : ℕ} {first : ℕ → Call A} where
  -- For any choice of the threads whose count is the last one.
  pub collapse :
      (last : ℕ → Bool) {h : List (Event A)} {xs : List A} {e : ℕ → Status A}
      → ActionTrace (Measured N) n first h xs e
      → (e' : ℕ → Status A) × ExactTrace N n first h xs e'
        × ((j : ℕ) → e' j ≡ collapsed (last j) (e j))
  collapse last start =
      ((λ i. calling (first i)), start, λ j. sym (collapsed-calling (last j) (first j)))
  collapse last (act {xs = xs} {ys = ys} {e = e} {s = s} i lt r a) =
      let (earlier, exact) = before (last i) a in
      let (e', r', agrees) = collapse (update last i earlier) r in
      let here = agrees i ∙ ap (λ z. collapsed z (e i)) (update_self last earlier i i refl) in
      (
        update e' i (collapsed (last i) s),
        act i lt r' (subst (λ z. Exact N xs z ys (collapsed (last i) s)) (sym here) exact),
        agree last e e' i s _
            (λ j ne. agrees j ∙ ap (λ z. collapsed z (e j)) (update_ne last earlier i j ne)) refl,
      )
  collapse last (call {e = e} i reply c lt r at) =
      let (e', r', agrees) = collapse last r in
      (
        update e' i (calling c),
        call i reply c lt r'
            (agrees i ∙ ap (collapsed (last i)) at ∙ collapsed-answered (last i) reply),
        agree last e e' i (calling c) _ (λ j ne. agrees j) (sym (collapsed-calling (last i) c)),
      )
