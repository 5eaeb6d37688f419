-- ===== src/System/Invariant/Frame.antt =====
-- What a step of one thread leaves true of the others.
use nure_queue.Common.{sym}
use nure_queue.System.Invariant.Defs.{contents, Counting}
use nure_queue.Atomic.{Status, replacing, answered, Act, wait}
use nure_queue.Common.Family.{update, update_self, update_ne}
use nure_queue.Common.{
  ℕ, ◌+◌, ◌%◌, ◌≤◌, ◌<◌, ◌≡◌, ◌≢◌, refl, ap, subst, ◌∙◌, ◌⊎◌, inl, inr, some, arith,
}
use nure_queue.Target.{Build}
use nure_queue.Lap.Geometry.{Geometry}
use nure_queue.Lap.Ticket.{slot-lt}
use nure_queue.Queue.{Queue}
use nure_queue.Thread.{
  option, Point, push_tail, push_stamp, push_claim, push_write, push_publish, full_head, ring_claim,
  ring_tail, ring_replace, ring_publish, pop_head, pop_stamp, pop_claim, pop_read, pop_publish,
  pop_tail, empty_head, empty_tail, full_tail, full_check, len_tail, len_head, len_again, done,
  fault,
}
use nure_queue.System.Invariant.Defs.{Stage, empty, full, Ghost, owner, Bounds, Memory, At, Local}

module _ {A : Type 0} where
  -- Thread `i` may change a slot that no other thread has to itself; if the slot was free for the next
  -- push or pop, then the ticket of that push or pop is taken.
  pub record MayChange (i : ℕ) (x y : Ghost A) (s : Stage) : Type 0 where
    pub mine : (j : ℕ) → j ≢ i → owner s ≢ some j
    pub taken : s ≡ empty x.puts → x.puts < y.puts
    pub given : s ≡ full x.takes → x.takes < y.takes

  -- What a step of thread `i` does to the tickets, the values and the stages.
  pub record Keeps (i : ℕ) (x y : Ghost A) : Type 0 where
    pub puts_up : (x.puts ≤ y.puts) × (y.puts ≤ x.puts + 1)
    pub takes_up : (x.takes ≤ y.takes) × (y.takes ≤ x.takes + 1)
    pub once : y.puts + y.takes ≤ x.puts + x.takes + 1
    pub values : (n : ℕ) → n < x.puts → y.value n ≡ x.value n
    pub stages : (k : ℕ) → (y.stage k ≡ x.stage k) ⊎ MayChange i x y (x.stage k)
    pub others : (j : ℕ) → j ≢ i → y.status j ≡ x.status j
    pub owners : (k j : ℕ) → j ≢ i → owner (y.stage k) ≡ some j → y.stage k ≡ x.stage k

  -- The same for an access, with the action of the specification that it is.
  pub record Advance (N i : ℕ) (x y : Ghost A) : Type 0 where
    pub keeps : Keeps i x y
    pub acts : Act N (contents x) (x.status i) (contents y) (y.status i)

  -- A step that takes no ticket and has no effect on slots.
  pub Advance-status :
      (N i : ℕ) (x : Ghost A) (s : Status A)
      → Act N (contents x) (x.status i) (contents x) s
      → Advance N i x (record x { status = update x.status i s })
  Advance-status N i x s act = record {
    keeps = record {
      puts_up = omega arith;
      takes_up = omega arith;
      once = omega arith;
      values = λ n h. refl;
      stages = λ k. inl refl;
      others = λ j ne. update_ne x.status s i j (λ e. ne (sym e));
      owners = λ k j ne own. refl;
    };
    acts =
        subst (Act N (contents x) (x.status i) (contents x)) (sym (update_self x.status s i i refl))
          act;
  }

  pub Advance-refl : (N i : ℕ) (x : Ghost A) → Advance N i x x
  Advance-refl N i x = record {
    keeps = record {
      puts_up = omega arith;
      takes_up = omega arith;
      once = omega arith;
      values = λ n h. refl;
      stages = λ k. inl refl;
      others = λ j ne. refl;
      owners = λ k j ne own. refl;
    };
    acts = wait;
  }

module _ {A : Type 0} {b : Build} {N L : ℕ} (g : Geometry b N L) {i j : ℕ} {x y : Ghost A}
    {q : Queue A} (v : Memory g x q) (adv : Keeps i x y) (other : j ≢ i) where
  open adv use {puts_up, takes_up, values, stages, others}

  -- A slot that thread `j` has to itself stays as it is.
  owned_stays : (n : ℕ) (s : Stage) → owner s ≡ some j → At g x n s → At g y n s
  owned_stays n s own here = elim (stages (n % N)) [
    | inl same ↦ same ∙ here
    | inr c ↦ absurd (c.mine j other (ap owner here ∙ own))
  ]

  -- A slot that is free for the next push stays so while no push takes a ticket.
  empty_stays :
      (n : ℕ) → n ≤ x.puts → (n ≡ x.puts → At g x n (empty n)) → n ≡ y.puts → At g y n (empty n)
  empty_stays n le was e = elim (stages (n % N)) [
    | inl same ↦ same ∙ was (omega arith)
    | inr c ↦ absurd (omega (arith, c.taken (was (omega arith) ∙ ap empty (omega arith))))
  ]

  full_stays :
      (n : ℕ) → n ≤ x.takes → (n ≡ x.takes → At g x n (full n)) → n ≡ y.takes → At g y n (full n)
  full_stays n le was e = elim (stages (n % N)) [
    | inl same ↦ same ∙ was (omega arith)
    | inr c ↦ absurd (omega (arith, c.given (was (omega arith) ∙ ap full (omega arith))))
  ]

  -- The bounds of the stage that a slot is in.
  stage-Bounds : (n : ℕ) {s : Stage} → At g x n s → Bounds N x.takes x.puts s
  stage-Bounds n here = subst (Bounds N x.takes x.puts) here (v.slots (n % N) (slot-lt g n)).bounds

  same_status : {s : Status A} → x.status j ≡ s → y.status j ≡ s
  same_status e = others j other ∙ e

  pub Local-frame : (a : ℕ) (p : Point A) → Local g x a j p → Local g y (a + 1) j p
  Local-frame a (push_tail c w k) st = same_status st
  Local-frame a (push_stamp c w k tail) (n, was, st) = (n, omega arith, same_status st)
  Local-frame a (push_claim c w k tail) (n, was, sees, st) =
      (n, omega arith, empty_stays n (omega arith) sees, same_status st)
  Local-frame a (push_write c w tail) (n, e, here, val, st) = (
    n,
    e,
    owned_stays n _ refl here,
    values n (omega (arith, stage-Bounds n here)) ∙ val,
    same_status st,
  )
  Local-frame a (push_publish c tail) (n, e, here, st) =
      (n, e, owned_stays n _ refl here, same_status st)
  Local-frame a (full_head w k tail) (n, was, st) = (n, omega arith, same_status st)
  Local-frame a (ring_claim w k tail) (n, was, sees, st) =
      (n, omega arith, full_stays n (omega (arith, v.within)) sees, same_status st)
  Local-frame a (ring_tail w tail) (n, e, here, st) = (
    n,
    e,
    owned_stays n _ refl here,
    same_status st
        ∙ ap (replacing w) (sym (values n (omega (arith, stage-Bounds n here, v.ordered)))),
  )
  Local-frame a (ring_replace w tail) (n, e, here, val, st) = (
    n,
    e,
    owned_stays n _ refl here,
    values (n + N) (stage-Bounds n here).1 ∙ val,
    same_status st
        ∙ ap (λ o. answered (option o))
            (sym (values n (omega (arith, stage-Bounds n here, v.ordered)))),
  )
  Local-frame a (ring_publish old tail) (n, e, here, st) =
      (n, e, owned_stays n _ refl here, same_status st)
  Local-frame a (pop_head k) st = same_status st
  Local-frame a (pop_stamp k head) (n, was, st) = (n, omega arith, same_status st)
  Local-frame a (pop_claim k head) (n, was, sees, st) =
      (n, omega arith, full_stays n (omega arith) sees, same_status st)
  Local-frame a (pop_read head) (n, e, here, st) = (
    n,
    e,
    owned_stays n _ refl here,
    same_status st
        ∙ ap (λ o. answered (option o))
            (sym (values n (omega (arith, stage-Bounds n here, v.ordered)))),
  )
  Local-frame a (pop_publish msg head) (n, e, here, st) =
      (n, e, owned_stays n _ refl here, same_status st)
  Local-frame a (pop_tail k head) (n, was, st) = (n, omega arith, same_status st)
  Local-frame a empty_head st = same_status st
  Local-frame a (empty_tail head) (n, was, st) = (n, omega arith, same_status st)
  Local-frame a full_tail st = same_status st
  Local-frame a (full_check tail) (n, was, st) = (n, omega arith, same_status st)
  Local-frame a len_tail l = subst Counting (sym (others j other)) l
  Local-frame a (len_head tail) (n, was, l) =
      (n, omega arith, subst Counting (sym (others j other)) l)
  Local-frame a (len_again tail head) (n, was, (m, k, e, st, sees)) =
      (n, omega arith, (m, k, e, same_status st, λ now. sees (omega arith)))
  Local-frame a (done r) st = same_status st
  Local-frame a fault l = l
