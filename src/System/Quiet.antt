-- ===== src/System/Quiet.antt =====
-- A queue where no thread is between its compare-exchange and its stamp store: what it holds, a call on
-- it, and its drop.
use nure_queue.Common.{
  ℕ, ◌+◌, ◌-◌, ◌*◌, ◌%◌, ◌≤◌, ◌<◌, ◌≡◌, refl, sym, ap, subst, ◌∙◌, ◌⊎◌, inl, inr, Bool, true, List,
  Option, none, some, length, get_elem?-lt, arith,
}
use nure_queue.Common.Div.{mod_near}
use nure_queue.Target.{Build}
use nure_queue.Lap.Geometry.{Geometry}
use nure_queue.Lap.Ticket.{position, slot-lt}
use nure_queue.Queue.{Queue}
use nure_queue.Thread.{Reply, done, Call}
use nure_queue.Lap.{index_of}
use native.Mathlib.Nat.{le_refl}
use nure_queue.Fifo
use nure_queue.Atomic.{Atomic, answered, Event, AtomicTrace}
use nure_queue.Solo.{call}
use nure_queue.Solo.Run.{enough}
use nure_queue.Solo.Holds.{Holds}
use nure_queue.Solo.Refine.{call_refines}
use nure_queue.Drop.{drop}
use nure_queue.Drop.All.{Vacant, drop_lem}
use nure_queue.System.{System, Trace}
use nure_queue.System.Invariant.Defs.{
  Stage, empty, full, claimed, writing, popping, reading, ring_claimed, ring_stored, ring_written,
  Ghost, owner, ticket_of, Bounds, stamp_of, content_of, contents, Memory, Local,
}
use nure_queue.System.Invariant.Contents.{length-contents, get_elem?-values_from}
use nure_queue.System.Invariant.Owns.{uses}
use nure_queue.System.Invariant.All.{Inv, atomic_of}
use nure_queue.System.Linear.{Trace-Inv}

-- A slot that no thread has to itself, of a ticket that is taken, or that is next for a push.
full_at :
    (N t p n : ℕ) (s : Stage)
    → owner s ≡ none
    → ticket_of s % N ≡ n % N
    → Bounds N t p s
    → p ≤ t + N
    → t ≤ n
    → n < p
    → s ≡ full n
full_at N t p n (full m) own same bounds lap lo hi =
    ap full (mod_near N m n (omega arith) (omega arith) same)
full_at N t p n (empty m) own same bounds lap lo hi =
    absurd (omega (arith, mod_near N m n (omega arith) (omega arith) same))
full_at N t p n (claimed i m) own same bounds lap lo hi = absurd (cc own)
full_at N t p n (writing i m) own same bounds lap lo hi = absurd (cc own)
full_at N t p n (popping i m) own same bounds lap lo hi = absurd (cc own)
full_at N t p n (reading i m) own same bounds lap lo hi = absurd (cc own)
full_at N t p n (ring_claimed i m) own same bounds lap lo hi = absurd (cc own)
full_at N t p n (ring_stored i m) own same bounds lap lo hi = absurd (cc own)
full_at N t p n (ring_written i m) own same bounds lap lo hi = absurd (cc own)

empty_at :
    (N t p n : ℕ) (s : Stage)
    → owner s ≡ none
    → ticket_of s % N ≡ n % N
    → Bounds N t p s
    → t ≤ p
    → p ≤ n
    → n < t + N
    → s ≡ empty n
empty_at N t p n (empty m) own same bounds le lo hi =
    ap empty (mod_near N m n (omega arith) (omega arith) same)
empty_at N t p n (full m) own same bounds le lo hi =
    absurd (omega (arith, mod_near N m n (omega arith) (omega arith) same))
empty_at N t p n (claimed i m) own same bounds le lo hi = absurd (cc own)
empty_at N t p n (writing i m) own same bounds le lo hi = absurd (cc own)
empty_at N t p n (popping i m) own same bounds le lo hi = absurd (cc own)
empty_at N t p n (reading i m) own same bounds le lo hi = absurd (cc own)
empty_at N t p n (ring_claimed i m) own same bounds le lo hi = absurd (cc own)
empty_at N t p n (ring_stored i m) own same bounds le lo hi = absurd (cc own)
empty_at N t p n (ring_written i m) own same bounds le lo hi = absurd (cc own)

module _ {A : Type 0} {b : Build} {N L : ℕ} (g : Geometry b N L) {x : Ghost A} {q : Queue A}
    (v : Memory g x q) (free : (k : ℕ) → owner (x.stage k) ≡ none) where
  -- Where no slot is taken, the queue holds what the specification does.
  pub Memory-Holds : Holds g x.takes (contents x) q
  Memory-Holds = record {
    lap = v.lap;
    head = v.head;
    tail = v.tail ∙ ap (position g) (omega (arith, many, v.ordered));
    fits = omega (arith, many, v.within);
    full = λ j w e.
        let n = x.takes + j in
        let s = v.slots (n % N) (slot-lt g n) in
        let here : x.stage (n % N) ≡ full n =
          full_at N x.takes x.puts n (x.stage (n % N)) (free (n % N)) s.index s.bounds v.within
            (omega arith) (omega (arith, get_elem?-lt (contents x) j w e, many)) in
        s.slot
        ∙ ap (λ z. some (record { stamp = stamp_of g z; value = content_of N x.value z })) here
        ∙ ap (λ o. some (record { stamp = position g n + 1; value = o }))
            (get_elem?-values_from x.value x.takes (x.puts - x.takes)
              (λ i le lt. v.known i (omega arith)) j w e);
    free = λ j le lt.
        let n = x.takes + j in
        let s = v.slots (n % N) (slot-lt g n) in
        s.slot
        ∙ ap (λ z. some (record { stamp = stamp_of g z; value = content_of N x.value z }))
            (empty_at N x.takes x.puts n (x.stage (n % N)) (free (n % N)) s.index s.bounds v.ordered
              (omega (arith, many, v.ordered)) (omega arith));
  }
    where
      many : length (contents x) ≡ x.puts - x.takes
      many = length-contents x v.known v.ordered

owner_cases : (o : Option ℕ) → (o ≡ none) ⊎ ((j : ℕ) × (o ≡ some j))
owner_cases none = inl refl
owner_cases (some j) = inr (j, refl)

module _ {A : Type 0} {b : Build} {N L : ℕ} (g : Geometry b N L) where
  -- Where no thread is between its compare-exchange and its stamp store, no slot is taken.
  pub no_owner :
      {x : Ghost A} {s : System A}
      → Inv g x s
      → ((i : ℕ) → uses (s.at i) ≡ none)
      → (k : ℕ) → owner (x.stage k) ≡ none
  no_owner {x} {s} inv quiet k = elim (owner_cases (owner (x.stage k))) [
    | inl e ↦ e
    | inr (j, e) ↦ absurd (
        cc (
          sym (inv.owns j k e)
          ∙ ap (λ o. elim o [ none ↦ none | some w ↦ some (index_of b L w) ]) (quiet j)))
  ]

  -- After any interleaving of any number of threads in a new queue that leaves none of them between its
  -- compare-exchange and its stamp store, the specification has an execution with the same returns and
  -- calls, and with the same reply of each thread that has returned, such that the drop of the queue
  -- runs the destructor of each value that the specification still holds once, the oldest first, and
  -- leaves none behind. The condition: while a thread works on a position that it has loaded, the threads
  -- make fewer than `patience` accesses, and these with three laps of the buffer are no more than the
  -- positions of the words.
  pub quiet_drop :
      (n patience : ℕ) (first : ℕ → Call A) (h : List (Event A)) (s : System A)
      → patience + 3 * N ≤ N * g.laps
      → Trace b N n patience L first h s
      → ((i : ℕ) → uses (s.at i) ≡ none)
      → (t : Atomic A) × AtomicTrace N n first h t
        × ((i : ℕ) (r : Reply A) → s.at i ≡ done r → t.status i ≡ answered r)
        × ((q : Queue A) × (drop b N true s.queue ≡ some (t.contents, q))
            × ((k : ℕ) → k < N → Vacant q k))
  quiet_drop n patience first h s far r quiet =
      let (x, inv, trace) = Trace-Inv g n patience far r in
      (
        atomic_of g x,
        trace,
        λ i reply at. subst (Local g x (s.age i) i) at (inv.threads i),
        drop_lem g (Memory-Holds g inv.memory (no_owner inv quiet)),
      )

  -- After any interleaving of any number of threads in a new queue that leaves none of them between its
  -- compare-exchange and its stamp store, the specification has an execution with the same returns and
  -- calls, such that a method that is then called while the threads make no access returns within
  -- `3 * length flags + 8` accesses, whichever of its accesses fail spuriously, with the reply that the
  -- specification gives for what it holds. The condition: while a thread works on a position that it has
  -- loaded, the threads make fewer than `patience` accesses, and these with three laps of the buffer are
  -- no more than the positions of the words.
  pub quiet_call :
      (n patience : ℕ) (first : ℕ → Call A) (h : List (Event A)) (s : System A)
      → patience + 3 * N ≤ N * g.laps
      → Trace b N n patience L first h s
      → ((i : ℕ) → uses (s.at i) ≡ none)
      → (t : Atomic A) × AtomicTrace N n first h t
        × ((c : Call A) (flags : List Bool)
            → (q : Queue A) × (call b N (enough flags) flags c s.queue
                ≡ some ((Fifo.answer N c t.contents).0, q)))
  quiet_call n patience first h s far r quiet =
      let (x, inv, trace) = Trace-Inv g n patience far r in
      let holds = Memory-Holds g inv.memory (no_owner inv quiet) in
      (
        atomic_of g x,
        trace,
        λ c flags.
            let (_, q, e, _) =
              call_refines g (enough flags) flags c (contents x) holds (le_refl _) in
            (q, e),
      )
