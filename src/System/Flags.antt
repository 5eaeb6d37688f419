-- ===== src/System/Flags.antt =====
-- What `is_empty` and `is_full` say of the queue, with any other threads in it.
use nure_queue.Common.{
  ℕ, ◌+◌, ◌-◌, ◌*◌, ◌≤◌, ◌<◌, ◌≡◌, ◌≢◌, sym, ap, ap₂, subst, ◌∙◌, ◌⊎◌, inl, inr, Bool, true, false,
  ◌==◌, ==→eq, eq→==, ℕ_discrete, dec_lt, arith,
}
use nure_queue.Target.{Build, index_bits, wrapping_add}
use nure_queue.Lap.{distance}
use nure_queue.Lap.Geometry.{Geometry}
use nure_queue.Lap.Ticket.{position, add_lap}
use nure_queue.Thread.{flag, empty_tail, full_check, done, Call}
use nure_queue.Thread.Step.{step}
use nure_queue.Queue.{Queue}
use nure_queue.System.{System, Reach}
use nure_queue.System.Invariant.Defs.{Ghost, Memory, Local}
use nure_queue.System.Invariant.Stamps.{near_position}
use nure_queue.System.Invariant.All.{Reach-Inv}
use nure_queue.System.Answers.{memory_count}

module _ {A : Type 0} (b : Build) (N L : ℕ) (q : Queue A) where
  -- What an answer of `is_empty` says, which has loaded `head`: the queue is empty; or it is not, or a
  -- pop or a `force_push` has taken a value since.
  abbrev pub TellsEmpty : ℕ → Bool → Type 0
  TellsEmpty head true = distance b N L q.head q.tail ≡ 0
  TellsEmpty head false = (0 < distance b N L q.head q.tail) ⊎ (q.head ≢ head)

  -- What an answer of `is_full` says, which has loaded `tail`: the queue is full; or it is not, or a push
  -- has put a value in since.
  abbrev pub TellsFull : ℕ → Bool → Type 0
  TellsFull tail true = distance b N L q.head q.tail ≡ N
  TellsFull tail false = (distance b N L q.head q.tail < N) ⊎ (q.tail ≢ tail)

module _ {A : Type 0} {b : Build} {N L : ℕ} (g : Geometry b N L) (x : Ghost A) (q : Queue A)
    (v : Memory g x q) (a : ℕ) (soon : a + 3 * N < N * g.laps) where
  counted : distance b N L q.head q.tail ≡ x.puts - x.takes
  counted = memory_count g v (x.puts - x.takes) (omega (arith, v.ordered)) (omega (arith, v.within))

  empty_says :
      (head m : ℕ) (r : Bool)
      → (head ≡ position g m) × (m ≤ x.takes) × (x.takes ≤ m + a)
      → (q.tail == head) ≡ r
      → TellsEmpty b N L q head r
  empty_says head m true was e =
      let now : m ≡ x.puts =
        near_position g m x.puts (omega (arith, was, v.ordered, v.within))
          (omega (arith, was, v.ordered, v.within)) (sym was.0 ∙ sym (==→eq _ _ e) ∙ v.tail) in
      omega (arith, counted, was, v.ordered)
  empty_says head m false was e = elim (ℕ_discrete q.head head) [
    | yes same ↦ elim (dec_lt x.takes x.puts) [
      | yes some_left ↦ inl (omega (arith, counted))
      | no none_left ↦ cc (
        eq→== q.tail head (
            v.tail
            ∙ ap (position g) {x = x.puts} {y = x.takes} (omega (arith, v.ordered))
            ∙ sym v.head
            ∙ same),
        e,
      )
    ]
    | no moved ↦ inr moved
  ]

  full_says :
      (tail m : ℕ) (r : Bool)
      → (tail ≡ position g m) × (m ≤ x.puts) × (x.puts ≤ m + a)
      → (wrapping_add (index_bits b) q.head q.one_lap == tail) ≡ r
      → TellsFull b N L q tail r
  full_says tail m true was e =
      let now : x.takes + N ≡ m =
        near_position g (x.takes + N) m (omega (arith, was, v.ordered, v.within))
          (omega (arith, was, v.ordered, v.within))
          (sym (ap₂ (wrapping_add (index_bits b)) v.head v.lap ∙ add_lap g x.takes)
            ∙ ==→eq _ _ e
            ∙ was.0) in
      omega (arith, counted, was, v.within)
  full_says tail m false was e = elim (ℕ_discrete q.tail tail) [
    | yes same ↦ elim (dec_lt x.puts (x.takes + N)) [
      | yes room ↦ inl (omega (arith, counted, v.ordered))
      | no none_left ↦ cc (
        eq→== (wrapping_add (index_bits b) q.head q.one_lap) tail (
            ap₂ (wrapping_add (index_bits b)) v.head v.lap
            ∙ add_lap g x.takes
            ∙ ap (position g) {x = x.takes + N} {y = x.puts} (omega (arith, v.within))
            ∙ sym v.tail
            ∙ same),
        e,
      )
    ]
    | no moved ↦ inr moved
  ]

module _ {A : Type 0} {b : Build} {N L : ℕ} (g : Geometry b N L) (n patience : ℕ)
    (first : ℕ → Call A) (s : System A) (far : patience + 3 * N ≤ N * g.laps)
    (r : Reach b N n patience L first s) (i : ℕ) (f : Bool) (soon : s.age i < patience) where
  -- With any number of threads in any interleaving: where `is_empty` answers true, the queue is empty at
  -- its second load; where it answers false, the queue is not empty then, or the head has moved since its
  -- first load. The condition: while a thread works on a position that it has loaded, the threads make
  -- fewer than `patience` accesses, and these with three laps of the buffer are no more than the positions
  -- of the words.
  pub is_empty_says :
      (head : ℕ) (answer : Bool)
      → s.at i ≡ empty_tail head
      → (step b N f s.queue (empty_tail head)).1 ≡ done (flag answer)
      → TellsEmpty b N L s.queue head answer
  unfolding step
  is_empty_says head answer at gives =
      let (x, inv) = Reach-Inv g n patience far r in
      let (m, was, _) = subst (Local g x (s.age i) i) at (inv.threads i) in
      empty_says g x s.queue inv.memory (s.age i) (omega arith) head m answer was (cc gives)

  -- With any number of threads in any interleaving: where `is_full` answers true, the queue holds N values
  -- at its second load; where it answers false, the queue holds fewer then, or the tail has moved since its
  -- first load. The condition: while a thread works on a position that it has loaded, the threads make
  -- fewer than `patience` accesses, and these with three laps of the buffer are no more than the positions
  -- of the words.
  pub is_full_says :
      (tail : ℕ) (answer : Bool)
      → s.at i ≡ full_check tail
      → (step b N f s.queue (full_check tail)).1 ≡ done (flag answer)
      → TellsFull b N L s.queue tail answer
  unfolding step
  is_full_says tail answer at gives =
      let (x, inv) = Reach-Inv g n patience far r in
      let (m, was, _) = subst (Local g x (s.age i) i) at (inv.threads i) in
      full_says g x s.queue inv.memory (s.age i) (omega arith) tail m answer was (cc gives)
