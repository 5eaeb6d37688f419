-- ===== src/System/Linear.antt =====
-- Any number of threads in the methods of src/lib.rs beside a bounded queue whose methods are atomic.
pub mod Looks
pub mod Access
use nure_queue.Common.{
  ℕ, ◌+◌, ◌-◌, ◌*◌, ◌≤◌, ◌<◌, ◌≡◌, refl, sym, subst, ap, ◌∙◌, true, false, ℕ_discrete, List, ◌++◌,
  length, arith,
}
use nure_queue.Target.{Build}
use nure_queue.Lap.{distance}
use nure_queue.Lap.Geometry.{Geometry}
use nure_queue.System.Invariant.Frame.{Keeps}
use nure_queue.System.Invariant.Moves.{settled, settled-Memory}
use nure_queue.Common.Family.{update, update_self, update_ne}
use nure_queue.Queue.{Queue}
use nure_queue.Thread.{Reply, Point, done, Call, entry}
use nure_queue.Atomic.{Atomic, Status, calling, answered, Event, AtomicTrace, start, later}
use nure_queue.System.{System, next_age, moved, Step, Trace, begin, next}
use nure_queue.Atomic.Exact.{idle, ActionTrace, ExactTrace}
use nure_queue.Atomic.Exact.Measured.{Measured, fifo, sweep}
use nure_queue.Atomic.Exact.Collapse.{collapsed, collapse}
use nure_queue.System.Linear.Looks.{plain, Seen, same, Seen-other, Seen-eq, Seen-done}
use nure_queue.System.Linear.Access.{Accessed, step-Accessed}
use nure_queue.System.Invariant.Defs.{Ghost, contents, Memory, Local}
use nure_queue.System.Invariant.Contents.{length-contents}
use nure_queue.System.Invariant.All.{
  Inv, Inv-moved, call-Inv, settled-Keeps, atomic_of, new_ghost, new-Inv, Step-Inv,
}
use nure_queue.System.Answers.{memory_count}

plain-entry : {A : Type 0} (c : Call A) → plain (entry c) ≡ true
unfolding entry
plain-entry (Call.push w) = refl
plain-entry (Call.force_push w) = refl
plain-entry Call.pop = refl
plain-entry Call.is_empty = refl
plain-entry Call.is_full = refl
plain-entry Call.len = refl

module _ {A : Type 0} {b : Build} {N L : ℕ} (g : Geometry b N L) where
  pub Trace-Inv :
      (n patience : ℕ) {first : ℕ → Call A} {h : List (Event A)} {s : System A}
      → patience + 3 * N ≤ N * g.laps
      → Trace b N n patience L first h s
      → (x : Ghost A) × Inv g x s × AtomicTrace N n first h (atomic_of g x)
  Trace-Inv n patience {first} far begin = (new_ghost g first, new-Inv g first, start)
  Trace-Inv n patience {first} far (next {h = h} r w) =
      let (x, inv, trace) = Trace-Inv n patience far r in
      let (y, after, (u, shown), _, _) = Step-Inv g n patience far inv w in
      (
        y,
        after,
        subst (λ es. AtomicTrace N n first (es ++ h) (atomic_of g y)) shown (later trace u),
      )

  -- The statuses of the exact specification beside the threads.
  abbrev Beside : ℕ → Ghost A → System A → (ℕ → Status A) → Type 0
  Beside n x s e = (j : ℕ) → j < n → Seen g x (s.age j) (x.status j) (s.at j) (e j)

  -- After a step of thread `i`, each thread makes an action that leaves the list as it is.
  settle_all :
      (n : ℕ) {x y : Ghost A} {s : System A} {e : ℕ → Status A} {q : Queue A} {p : Point A} (i : ℕ)
      (z : Status A)
      → Memory g x s.queue
      → Memory g y q
      → Keeps i x y
      → Beside n x s e
      → Seen g y (next_age (s.age i) p) (y.status i) p z
      → (j : ℕ) → j < n
      → (z' : Status A) × Measured N (contents y) (update e i z j) (contents y) z'
        × Seen g y ((moved s i (q, p)).age j) (y.status j) ((moved s i (q, p)).at j) z'
  settle_all n {x} {y} {s} {e} {q} {p} i z v v' keeps beside mine j lt = elim (ℕ_discrete i j) [
    | yes here ↦ (
      update e i z j,
      fifo idle,
      subst
          (λ m.
            Seen g y ((moved s i (q, p)).age m) (y.status m) ((moved s i (q, p)).at m)
              (update e i z m))
          here
          (Seen-eq g y (update_self (λ j. s.age j + 1) _ i i refl) (update_self s.at p i i refl)
            (update_self e z i i refl) mine),
    )
    | no ne ↦
        let (z', act, seen) = Seen-other g v v' keeps j (s.age j) (λ e. ne (sym e)) (beside j lt) in
        (
          z',
          subst (λ w. Measured N (contents y) w (contents y) z') (sym (update_ne e z i j ne)) act,
          Seen-eq g y (update_ne (λ j. s.age j + 1) _ i j ne) (update_ne s.at p i j ne) refl seen,
        )
  ]

  pub Trace-Measured :
      (n patience : ℕ) {first : ℕ → Call A} {h : List (Event A)} {s : System A}
      → patience + 3 * N ≤ N * g.laps
      → Trace b N n patience L first h s
      → (x : Ghost A) × Inv g x s
        × ((e : ℕ → Status A) × ActionTrace (Measured N) n first h (contents x) e × Beside n x s e)
  Trace-Measured n patience {first} far begin = (
    new_ghost g first,
    new-Inv g first,
    (_, ActionTrace.start, λ j lt. same (plain-entry (first j)) refl),
  )
  Trace-Measured n patience far (next {s = s} r (Step.move i f lt fresh)) =
      let (x, inv, (e, exact, beside)) = Trace-Measured n patience far r in
      let o =
        step-Accessed g i (s.age i) patience f far inv.memory (s.at i) fresh (inv.threads i)
          (inv.owns i) (beside i lt) in
      (
        o.tickets,
        Inv-moved g i _ _ inv o.memory o.mine o.keeps o.own,
        sweep _ (ActionTrace.act i lt exact o.acts)
            (settle_all n i o.status inv.memory o.memory o.keeps beside o.seen),
      )
  Trace-Measured n patience far (next {s = s} r (Step.call i reply c lt at)) =
      let (x, inv, (e, exact, beside)) = Trace-Measured n patience far r in
      let y = settled g i x (calling c) in
      let now = update_self x.status (calling c) i i refl in
      let returned =
        Seen-done g x (beside i lt) at ∙ subst (Local g x (s.age i) i) at (inv.threads i) in
      (
        y,
        call-Inv g i reply c inv at,
        sweep
            (λ j z.
              Seen g y ((moved s i (s.queue, entry c)).age j) (y.status j)
                ((moved s i (s.queue, entry c)).at j) z)
            (ActionTrace.call i reply c lt exact returned)
            (settle_all n i (calling c) inv.memory (settled-Memory g i (calling c) inv.memory)
              (settled-Keeps g x i (calling c)) beside (same (plain-entry c) (sym now))),
      )

  -- The specification Atomic.Exact has one action for each method at one moment between its call and its
  -- return, with the reply and the effect that `Fifo.answer` gives to the method on a list of at most N
  -- values; only `force_push` on a full list may have two, one that takes the oldest value out, and a later
  -- one that puts its own into a list that is not full. For every interleaving of any number of threads in
  -- a new queue, and the sequence of returns and calls that it shows, the specification has an execution
  -- that shows the same sequence. At its end each of the n threads that has returned has the same reply
  -- there, and the list is as long as the count between the head and the tail. The condition: while a
  -- thread works on a position that it has loaded, the threads make fewer than `patience` accesses, and
  -- these with three laps of the buffer are no more than the positions of the words.
  pub linearizable :
      (n patience : ℕ) (first : ℕ → Call A) (h : List (Event A)) (s : System A)
      → patience + 3 * N ≤ N * g.laps
      → Trace b N n patience L first h s
      → (xs : List A) × (e : ℕ → Status A) × ExactTrace N n first h xs e
        × ((i : ℕ) (r : Reply A) → i < n → s.at i ≡ done r → e i ≡ answered r)
        × (distance b N L s.queue.head s.queue.tail ≡ length xs)
        × (length xs ≤ N)
  linearizable n patience first h s far r =
      let (x, inv, (m, trace, beside)) = Trace-Measured n patience far r in
      let (e, exact, agrees) = collapse (λ j. false) trace in
      let v = inv.memory in
      let many = length-contents x v.known v.ordered in
      (
        contents x,
        e,
        exact,
        λ i reply lt at.
            agrees i
            ∙ ap (collapsed false)
                (Seen-done g x (beside i lt) at ∙ subst (Local g x (s.age i) i) at (inv.threads i)),
        memory_count g v (x.puts - x.takes) (omega (arith, v.ordered)) (omega (arith, v.within))
            ∙ sym many,
        omega (arith, many, v.within),
      )
