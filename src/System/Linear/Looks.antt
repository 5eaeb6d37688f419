-- ===== src/System/Linear/Looks.antt =====
-- The threads beside the specification of Atomic.Exact, where an `is_empty` or `is_full` whose answer is
-- going to be false has it from the moment on at which it is so.
use nure_queue.Common.{
  ℕ, ◌+◌, ◌-◌, ◌<◌, ◌≡◌, ◌≢◌, refl, sym, subst, ◌∙◌, ◌⊎◌, inl, inr, Bool, true, false, length,
  dec_lt, arith,
}
use nure_queue.Target.{Build}
use nure_queue.Lap.Geometry.{Geometry}
use nure_queue.Queue.{Queue}
use nure_queue.Thread.{
  Closure, Reply, Call, flag, Point, push_tail, push_stamp, push_claim, push_write, push_publish,
  full_head, ring_claim, ring_tail, ring_replace, ring_publish, pop_head, pop_stamp, pop_claim,
  pop_read, pop_publish, pop_tail, empty_head, empty_tail, full_tail, full_check, len_tail,
  len_head, len_again, done, fault, when_full, ring,
}
use nure_queue.Atomic.{Status, calling, measured, replacing, answered}
use nure_queue.Atomic.Exact.{idle}
use nure_queue.Atomic.Exact.Measured.{Measured, fifo, see_false, full_false}
use nure_queue.System.Invariant.Defs.{
  Ghost, contents, Counting, Memory, HeadWas, TailWas, Local, call_of,
}
use nure_queue.System.Invariant.Contents.{length-contents}
use nure_queue.System.Invariant.Frame.{Keeps}

-- All points but those between the two loads of `is_empty` and `is_full`.
abbrev pub plain : {A : Type 0} → Point A → Bool
plain (empty_tail head) = false
plain (full_check tail) = false
plain p = true

-- The status of a thread in Atomic.Exact by its point and its status `st` in Atomic: the same, or
-- between two loads.
pub data Seen {A : Type 0} {b : Build} {N L : ℕ} (g : Geometry b N L) (x : Ghost A) (a : ℕ)
    (st : Status A) : Point A → Status A → Type 0 where
  same : {p : Point A} {s : Status A} → plain p ≡ true → s ≡ st → Seen g x a st p s
  empty_waits :
      {head : ℕ} {s : Status A} (m : ℕ)
      → HeadWas g x a m head
      → m ≡ x.puts
      → s ≡ calling Call.is_empty
      → Seen g x a st (empty_tail head) s
  empty_settled :
      {head : ℕ} {s : Status A} (m : ℕ)
      → HeadWas g x a m head
      → m < x.puts
      → s ≡ answered (flag false)
      → Seen g x a st (empty_tail head) s
  full_waits :
      {tail : ℕ} {s : Status A} (m : ℕ)
      → TailWas g x a m tail
      → m ≡ x.takes + N
      → s ≡ calling Call.is_full
      → Seen g x a st (full_check tail) s
  full_settled :
      {tail : ℕ} {s : Status A} (m : ℕ)
      → TailWas g x a m tail
      → m < x.takes + N
      → s ≡ answered (flag false)
      → Seen g x a st (full_check tail) s

module _ {A : Type 0} {b : Build} {N L : ℕ} (g : Geometry b N L) {x : Ghost A} {q : Queue A}
    (v : Memory g x q) where
  many : length (contents x) ≡ x.puts - x.takes
  many = length-contents x v.known v.ordered

  -- What a thread that loaded the current head, or the current tail, does at once.
  pub looks_empty :
      (a : ℕ) (st : Status A) {s : Status A} (m head : ℕ)
      → HeadWas g x a m head
      → m ≡ x.takes
      → s ≡ calling Call.is_empty
      → (s' : Status A) × Measured N (contents x) s (contents x) s'
        × Seen g x a st (empty_tail head) s'
  looks_empty a st m head was now e = elim (dec_lt m x.puts) [
    | yes lt ↦ (
      answered (flag false),
      subst (λ z. Measured N (contents x) z (contents x) (answered (flag false))) (sym e)
          (fifo (see_false (omega (arith, many)))),
      empty_settled m was lt refl,
    )
    | no ge ↦ (_, fifo idle, empty_waits m was (omega (arith, v.ordered)) e)
  ]

  pub looks_full :
      (a : ℕ) (st : Status A) {s : Status A} (m tail : ℕ)
      → TailWas g x a m tail
      → m ≡ x.puts
      → s ≡ calling Call.is_full
      → (s' : Status A) × Measured N (contents x) s (contents x) s'
        × Seen g x a st (full_check tail) s'
  looks_full a st m tail was now e = elim (dec_lt m (x.takes + N)) [
    | yes lt ↦ (
      answered (flag false),
      subst (λ z. Measured N (contents x) z (contents x) (answered (flag false))) (sym e)
          (fifo (full_false (omega (arith, many, v.ordered)))),
      full_settled m was lt refl,
    )
    | no ge ↦ (_, fifo idle, full_waits m was (omega (arith, v.within)) e)
  ]

module _ {A : Type 0} {b : Build} {N L : ℕ} (g : Geometry b N L) {x y : Ghost A} {q q' : Queue A}
    (v : Memory g x q) (v' : Memory g y q') {i : ℕ} (keeps : Keeps i x y) where
  -- After a step of thread `i`, each other thread makes an action that leaves the list as it is.
  pub Seen-other :
      (j a : ℕ) {p : Point A} {s : Status A}
      → j ≢ i
      → Seen g x a (x.status j) p s
      → (s' : Status A) × Measured N (contents y) s (contents y) s'
        × Seen g y (a + 1) (y.status j) p s'
  Seen-other j a ne (same pl e) = (_, fifo idle, same pl (e ∙ sym (keeps.others j ne)))
  Seen-other j a ne (empty_waits {head} m was now e) =
      looks_empty g v' (a + 1) (y.status j) m head
        (was.0, omega (arith, was, keeps.takes_up), omega (arith, was, keeps.takes_up))
        (omega (arith, was, now, keeps.once, keeps.takes_up, keeps.puts_up, v.ordered, v'.ordered))
        e
  Seen-other j a ne (empty_settled m was lt e) = (
    _,
    fifo idle,
    empty_settled m (was.0, omega (arith, was, keeps.takes_up), omega (arith, was, keeps.takes_up))
        (omega (arith, lt, keeps.puts_up)) e,
  )
  Seen-other j a ne (full_waits {tail} m was now e) =
      looks_full g v' (a + 1) (y.status j) m tail
        (was.0, omega (arith, was, keeps.puts_up), omega (arith, was, keeps.puts_up))
        (omega (arith, was, now, keeps.once, keeps.takes_up, keeps.puts_up, v.within, v'.within)) e
  Seen-other j a ne (full_settled m was lt e) = (
    _,
    fifo idle,
    full_settled m (was.0, omega (arith, was, keeps.puts_up), omega (arith, was, keeps.puts_up))
        (omega (arith, lt, keeps.takes_up)) e,
  )

module _ {A : Type 0} {b : Build} {N L : ℕ} (g : Geometry b N L) (x : Ghost A) where
  pub Seen-eq :
      {a a' : ℕ} {st : Status A} {p p' : Point A} {s s' : Status A}
      → a' ≡ a
      → p' ≡ p
      → s' ≡ s
      → Seen g x a st p s
      → Seen g x a' st p' s'
  Seen-eq {a} {a'} {st} {p} {p'} {s} {s'} ea ep es seen =
      subst (λ n. Seen g x n st p' s') (sym ea)
        (subst (λ m. Seen g x a st m s') (sym ep) (subst (Seen g x a st p) (sym es) seen))

  -- A thread that has returned has the same status.
  pub Seen-done :
      {a : ℕ} {st : Status A} {p : Point A} {s : Status A} {r : Reply A}
      → Seen g x a st p s
      → p ≡ done r
      → s ≡ st
  Seen-done (same pl e) at = e
  Seen-done (empty_waits m was now e) at = cc
  Seen-done (empty_settled m was lt e) at = cc
  Seen-done (full_waits m was now e) at = cc
  Seen-done (full_settled m was lt e) at = cc

-- Whether a thread is in `is_empty` or `is_full`, and where.
pub data Kind {A : Type 0} (st : Status A) : Point A → Type 0 where
  at_empty_head : Kind st empty_head
  at_full_tail : Kind st full_tail
  looking :
      {p : Point A}
      → plain p ≡ false
      → (st ≡ calling Call.is_empty) ⊎ (st ≡ calling Call.is_full)
      → Kind st p
  elsewhere :
      {p : Point A}
      → plain p ≡ true
      → st ≢ calling Call.is_empty
      → st ≢ calling Call.is_full
      → Kind st p

module _ {A : Type 0} where
  call_of-Kind :
      {st : Status A} (p : Point A) (c : Closure) (w : A)
      → plain p ≡ true
      → st ≡ calling (call_of c w)
      → Kind st p
  call_of-Kind p when_full w pl e = elsewhere pl (λ z. cc (z, e)) (λ z. cc (z, e))
  call_of-Kind p ring w pl e = elsewhere pl (λ z. cc (z, e)) (λ z. cc (z, e))

  Counting-Kind : (st : Status A) (p : Point A) → plain p ≡ true → Counting st → Kind st p
  Counting-Kind (calling c) p pl e = elsewhere pl (λ z. cc (z, e)) (λ z. cc (z, e))
  Counting-Kind (measured k) p pl e = elsewhere pl (λ z. cc) (λ z. cc)
  Counting-Kind (replacing w o) p pl e = absurd e
  Counting-Kind (answered r) p pl e = absurd e

  answered-Kind :
      {st : Status A} (p : Point A) (r : Reply A) → plain p ≡ true → st ≡ answered r → Kind st p
  answered-Kind p r pl e = elsewhere pl (λ z. cc (z, e)) (λ z. cc (z, e))

module _ {A : Type 0} {b : Build} {N L : ℕ} (g : Geometry b N L) (x : Ghost A) (a i : ℕ) where
  pub kind : (p : Point A) → Local g x a i p → Kind (x.status i) p
  kind (push_tail c w k) l = call_of-Kind _ c w refl l
  kind (push_stamp c w k tail) (n, was, e) = call_of-Kind _ c w refl e
  kind (push_claim c w k tail) (n, was, here, e) = call_of-Kind _ c w refl e
  kind (push_write c w tail) (n, was, here, value, e) = answered-Kind _ _ refl e
  kind (push_publish c tail) (n, was, here, e) = answered-Kind _ _ refl e
  kind (full_head w k tail) (n, was, e) = call_of-Kind _ when_full w refl e
  kind (ring_claim w k tail) (n, was, here, e) = call_of-Kind _ ring w refl e
  kind (ring_tail w tail) (n, was, here, e) = elsewhere refl (λ z. cc (z, e)) (λ z. cc (z, e))
  kind (ring_replace w tail) (n, was, here, value, e) = answered-Kind _ _ refl e
  kind (ring_publish old tail) (n, was, here, e) = answered-Kind _ _ refl e
  kind (pop_head k) e = elsewhere refl (λ z. cc (z, e)) (λ z. cc (z, e))
  kind (pop_stamp k head) (n, was, e) = elsewhere refl (λ z. cc (z, e)) (λ z. cc (z, e))
  kind (pop_claim k head) (n, was, here, e) = elsewhere refl (λ z. cc (z, e)) (λ z. cc (z, e))
  kind (pop_read head) (n, was, here, e) = answered-Kind _ _ refl e
  kind (pop_publish msg head) (n, was, here, e) = answered-Kind _ _ refl e
  kind (pop_tail k head) (n, was, e) = elsewhere refl (λ z. cc (z, e)) (λ z. cc (z, e))
  kind empty_head e = at_empty_head
  kind (empty_tail head) (n, was, e) = looking refl (inl e)
  kind full_tail e = at_full_tail
  kind (full_check tail) (n, was, e) = looking refl (inr e)
  kind len_tail l = Counting-Kind (x.status i) _ refl l
  kind (len_head tail) (n, was, l) = Counting-Kind (x.status i) _ refl l
  kind (len_again tail head) (n, was, (m, k, e, st, near)) =
      Counting-Kind (x.status i) _ refl (subst Counting (sym st) tt)
  kind (done r) e = answered-Kind _ r refl e
  kind fault l = absurd l

  -- A thread that is in neither method is at a plain point.
  pub Local-plain :
      (p : Point A)
      → Local g x a i p
      → x.status i ≢ calling Call.is_empty
      → x.status i ≢ calling Call.is_full
      → plain p ≡ true
  Local-plain p l one two = plain_of p (kind p l)
    where
      plain_of : (p : Point A) → Kind (x.status i) p → plain p ≡ true
      plain_of p at_empty_head = refl
      plain_of p at_full_tail = refl
      plain_of p (looking e (inl z)) = absurd (one z)
      plain_of p (looking e (inr z)) = absurd (two z)
      plain_of p (elsewhere e _ _) = e
