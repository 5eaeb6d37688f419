-- ===== src/System/Invariant/All.antt =====
-- The invariant of all threads and the memory, and that every step of the system keeps it.
use nure_queue.Atomic.{Status, Atomic, AtomicStep, atomic_event, calling}
use nure_queue.System.{event}
use nure_queue.System.Invariant.Frame.{Keeps}
use nure_queue.System.Invariant.Accesses.{safe-step}
use nure_queue.System.Invariant.Owns.{slot_of, Owns}
use nure_queue.System.Invariant.Defs.{owner}
use nure_queue.System.Invariant.Moves.{settled, settled-Memory}
use nure_queue.System.Invariant.Defs.{contents, Counting}
use nure_queue.Common.{
  inl, ℕ, ◌+◌, ◌*◌, ◌%◌, ◌≤◌, ◌≡◌, refl, sym, ap, subst, ◌∙◌, [], none, some, ℕ_discrete, arith,
}
use nure_queue.Common.Family.{update, update_self, update_ne}
use nure_queue.Target.{Build}
use nure_queue.Lap.Geometry.{Geometry}
use nure_queue.Lap.Ticket.{position}
use nure_queue.Queue.{Queue, empty_queue}
use nure_queue.Solo.Holds.{Holds, empty_queue-Holds}
use native.Mathlib.Nat.{mod-eq_of_lt}
use nure_queue.Thread.{Reply, done, Point, Call, entry}
use nure_queue.System.{System, next_age, moved, Step, Reach, start, later}
use nure_queue.System.Invariant.Defs.{Ghost, empty, Memory, Local}
use nure_queue.System.Invariant.Frame.{Local-frame}

module _ {A : Type 0} {b : Build} {N L : ℕ} (g : Geometry b N L) where
  -- All that is true of a system whose tickets are those of the ghost state.
  pub record Inv (x : Ghost A) (s : System A) : Type 0 where
    pub memory : Memory g x s.queue
    pub threads : (i : ℕ) → Local g x (s.age i) i (s.at i)
    pub owns : (i : ℕ) → Owns x.stage i (slot_of b L (s.at i))

  Local-eq :
      (y : Ghost A) (i : ℕ) {a a' : ℕ} {p p' : Point A}
      → a' ≡ a
      → p' ≡ p
      → Local g y a i p
      → Local g y a' i p'
  Local-eq y i {a} {a'} {p} {p'} ea ep l =
      subst (λ n. Local g y n i p') (sym ea) (subst (λ m. Local g y a i m) (sym ep) l)

  entry-Local :
      (y : Ghost A) (a i : ℕ) (c : Call A) → y.status i ≡ calling c → Local g y a i (entry c)
  unfolding entry
  entry-Local y a i (Call.push w) st = st
  entry-Local y a i (Call.force_push w) st = st
  entry-Local y a i Call.pop st = st
  entry-Local y a i Call.is_empty st = st
  entry-Local y a i Call.is_full st = st
  entry-Local y a i Call.len st = subst Counting (sym st) refl

  -- The threads after a step of thread `i`.
  pub Inv-moved :
      {x y : Ghost A} {s : System A} (i : ℕ) (q : Queue A) (p : Point A)
      → Inv x s
      → Memory g y q
      → Local g y (next_age (s.age i) p) i p
      → Keeps i x y
      → Owns y.stage i (slot_of b L p)
      → Inv y (moved s i (q, p))
  Inv-moved {x} {y} {s} i q p inv memory mine keeps own = record {
    memory = memory;
    threads = λ j. elim (ℕ_discrete i j) [
      | yes e ↦
          subst
            (λ m.
              Local g y (update (λ j. s.age j + 1) i (next_age (s.age i) p) m) m
                (update s.at i p m))
            e
            (Local-eq y i (update_self (λ j. s.age j + 1) _ i i refl) (update_self s.at p i i refl)
              mine)
      | no ne ↦
          Local-eq y j (update_ne (λ j. s.age j + 1) _ i j ne) (update_ne s.at p i j ne)
            (Local-frame g inv.memory keeps (λ e. ne (sym e)) (s.age j) (s.at j) (inv.threads j))
    ];
    owns = λ j. elim (ℕ_discrete i j) [
      | yes e ↦
          subst (λ m. Owns y.stage m (slot_of b L (update s.at i p m))) e
            (subst (λ z. Owns y.stage i (slot_of b L z)) (sym (update_self s.at p i i refl)) own)
      | no ne ↦
          subst (λ z. Owns y.stage j (slot_of b L z)) (sym (update_ne s.at p i j ne))
            (λ k here.
              inv.owns j k (ap owner (sym (keeps.owners k j (λ e. ne (sym e)) here)) ∙ here))
    ];
  }

  -- What the system is by the specification.
  abbrev pub atomic_of : Ghost A → Atomic A
  atomic_of x = record { contents = contents x; status = x.status }

  -- A thread settles what it is at.
  pub settled-Keeps : (x : Ghost A) (i : ℕ) (st : Status A) → Keeps i x (settled g i x st)
  settled-Keeps x i st = record {
    puts_up = omega arith;
    takes_up = omega arith;
    once = omega arith;
    values = λ n h. refl;
    stages = λ k. inl refl;
    others = λ j ne. update_ne x.status st i j (λ e. ne (sym e));
    owners = λ k j ne own. refl;
  }

  -- A thread that has returned has no slot to itself.
  pub done-Owns :
      {x : Ghost A} {s : System A} (i : ℕ) (r : Reply A)
      → Inv x s
      → s.at i ≡ done r
      → Owns x.stage i none
  done-Owns {x} i r inv e k own =
      absurd (cc (subst (λ z. Owns x.stage i (slot_of b L z)) e (inv.owns i) k own))

  -- A thread that has returned calls again.
  pub call-Inv :
      {x : Ghost A} {s : System A} (i : ℕ) (r : Reply A) (c : Call A)
      → Inv x s
      → s.at i ≡ done r
      → Inv (settled g i x (calling c)) (moved s i (s.queue, entry c))
  call-Inv {x} {s} i r c inv e =
      Inv-moved i s.queue (entry c) inv (settled-Memory g i (calling c) inv.memory)
        (entry-Local (settled g i x (calling c)) _ i c (update_self x.status (calling c) i i refl))
        (settled-Keeps x i (calling c)) (λ k own. absurd (cc (done-Owns i r inv e k own)))

  -- A step keeps the invariant, and is a step of the specification with the same calls.
  pub Step-Inv :
      (n patience : ℕ) {x : Ghost A} {s t : System A}
      → patience + 3 * N ≤ N * g.laps
      → Inv x s
      → (w : Step b N n patience s t)
      → (y : Ghost A) × Inv y t
        × ((u : AtomicStep N n (atomic_of x) (atomic_of y)) × (atomic_event N n u
              ≡ event b N n patience w))
        × ((x.puts ≤ y.puts) × (y.puts ≤ x.puts + 1))
        × ((x.takes ≤ y.takes) × (y.takes ≤ x.takes + 1))
  Step-Inv n patience {s = s} far inv (Step.move i f lt fresh) =
      let (y, memory, mine, advance, own) =
        safe-step g i f (s.age i) patience (s.at i) far inv.memory fresh (inv.threads i) in
      (
        y,
        Inv-moved i _ _ inv memory mine advance.keeps (own (inv.owns i)),
        (AtomicStep.act i lt advance.acts advance.keeps.others, refl),
        advance.keeps.puts_up,
        advance.keeps.takes_up,
      )
  Step-Inv n patience {x = x} {s = s} far inv (Step.call i r c lt e) =
      let keeps = settled-Keeps x i (calling c) in
      (
        settled g i x (calling c),
        call-Inv i r c inv e,
        (
          AtomicStep.call i r c lt (subst (Local g x (s.age i) i) e (inv.threads i))
              (update_self x.status (calling c) i i refl) keeps.others refl,
          refl,
        ),
        keeps.puts_up,
        keeps.takes_up,
      )

  -- No ticket has been taken, and slot `k` waits for ticket `k`.
  abbrev pub new_ghost : (ℕ → Call A) → Ghost A
  new_ghost first = record {
    takes = 0;
    puts = 0;
    stage = λ k. empty k;
    value = λ n. none;
    status = λ i. calling (first i);
  }

  empty_queue-Memory : (first : ℕ → Call A) → Memory g (new_ghost first) (empty_queue b N L)
  empty_queue-Memory first = record {
    lap = new_queue.lap;
    head = new_queue.head;
    tail = new_queue.tail;
    ordered = omega arith;
    within = omega arith;
    known = λ n lt. absurd (omega arith);
    slots = λ k lt. record {
      index = mod-eq_of_lt lt;
      bounds = omega arith;
      slot =
          let at_zero : 0 + k ≡ k = omega arith in
          ap (empty_queue {A = A} b N L).buffer
            (sym (mod-eq_of_lt lt) ∙ ap (λ n. n % N) (sym at_zero))
          ∙ new_queue.free k (omega arith) lt
          ∙ ap (λ n. some (record { stamp = position g n; value = none })) at_zero;
    };
  }
    where
      new_queue : Holds g 0 [] (empty_queue {A = A} b N L)
      new_queue = empty_queue-Holds g A

  pub new-Inv :
      (first : ℕ → Call A)
      → Inv
          (new_ghost first)
          (record { queue = empty_queue b N L; at = λ i. entry (first i); age = λ i. 0 })
  new-Inv first = record {
    memory = empty_queue-Memory first;
    threads = λ i. entry-Local (new_ghost first) 0 i (first i) refl;
    owns = λ i k own. absurd (cc own);
  }

  -- The invariant is true of every state that a new queue gets into.
  pub Reach-Inv :
      (n patience : ℕ) {first : ℕ → Call A} {s : System A}
      → patience + 3 * N ≤ N * g.laps
      → Reach b N n patience L first s
      → (x : Ghost A) × Inv x s
  Reach-Inv n patience {first} far start = (new_ghost first, new-Inv first)
  Reach-Inv n patience far (later r s) =
      let (x, inv) = Reach-Inv n patience far r in
      let (y, after, _, _, _) = Step-Inv n patience far inv s in (y, after)
