-- ===== src/System/Answers.antt =====
-- What the answers of a thread say of the queue at that moment, with any other threads in it.
use nure_queue.Common.{
  ℕ, ◌+◌, ◌*◌, ◌≤◌, ◌<◌, ◌≡◌, refl, sym, ap, ap₂, subst, ◌∙◌, Bool, true, false, none, ◌==◌, ==→eq,
  if◌then◌else◌, arith,
}
use nure_queue.Target.{Build, index_bits, wrapping_add}
use nure_queue.Lap.{distance}
use nure_queue.Lap.Geometry.{Geometry}
use nure_queue.Lap.Ticket.{position, add_lap}
use nure_queue.Lap.Distance.{distance-position}
use nure_queue.Backoff.{Backoff}
use nure_queue.Thread.{
  rejected, option, count, Point, full_head, pop_tail, len_tail, len_again, done, Call,
}
use nure_queue.Thread.Step.{step}
use nure_queue.Queue.{Queue}
use nure_queue.System.{System, Reach}
use nure_queue.System.Invariant.Defs.{Ghost, Memory, Local}
use nure_queue.System.Invariant.Stamps.{near_position}
use nure_queue.System.Invariant.All.{Reach-Inv}

-- The first way of a test was taken if the second has another result.
first_way :
    {A : Type 0} (test : Bool) (p p' r : Point A)
    → (p' ≡ r → ⊥)
    → (if test then p else p') ≡ r
    → test ≡ true
first_way true p p' r other e = refl
first_way false p p' r other e = absurd (other e)

module _ {A : Type 0} {b : Build} {N L : ℕ} (g : Geometry b N L) {x : Ghost A} {q : Queue A}
    (v : Memory g x q) where
  -- The count between the head and the tail, by tickets.
  pub memory_count : (d : ℕ) → x.puts ≡ x.takes + d → d ≤ N → distance b N L q.head q.tail ≡ d
  memory_count d e le =
      ap₂ (distance b N L) v.head (v.tail ∙ ap (position g) e) ∙ distance-position g x.takes d le

module _ {A : Type 0} {b : Build} {N L : ℕ} (g : Geometry b N L) (n patience : ℕ)
    (first : ℕ → Call A) (s : System A) (far : patience + 3 * N ≤ N * g.laps)
    (r : Reach b N n patience L first s) (i : ℕ) (f : Bool) (soon : s.age i < patience) where
  -- With any number of threads in any interleaving, a `pop` that returns None has found the
  -- queue empty: at the access that decides it, the count between the head and the tail is 0,
  -- although the head was loaded before and other threads may have moved both since. The
  -- condition: while a thread works on a position that it has loaded, the threads make fewer
  -- than `patience` accesses, and these with three laps of the buffer are no more than the
  -- positions of the words.
  pub none_is_empty :
      (k : Backoff) (head : ℕ)
      → s.at i ≡ pop_tail k head
      → (step b N f s.queue (pop_tail k head)).1 ≡ done (option none)
      → distance b N L s.queue.head s.queue.tail ≡ 0
  unfolding step
  none_is_empty k head at gives =
      let (x, inv) = Reach-Inv g n patience far r in
      let v = inv.memory in
      let (m, was, _) = subst (Local g x (s.age i) i) at (inv.threads i) in
      let equal = ==→eq s.queue.tail head (first_way _ _ _ _ (λ e. cc e) gives) in
      let now : m ≡ x.puts =
        near_position g m x.puts (omega (arith, was, v.ordered, v.within))
          (omega (arith, was, v.ordered, v.within)) (sym was.0 ∙ sym equal ∙ v.tail) in
      memory_count g v 0 (omega (arith, was, v.ordered)) (omega arith)

  -- With any number of threads in any interleaving, a `push` that returns its value has found
  -- the queue full: at the access that decides it, the count between the head and the tail is N.
  -- The condition: while a thread works on a position that it has loaded, the threads make fewer
  -- than `patience` accesses, and these with three laps of the buffer are no more than the
  -- positions of the words.
  pub rejected_is_full :
      (w : A) (k : Backoff) (tail : ℕ)
      → s.at i ≡ full_head w k tail
      → (step b N f s.queue (full_head w k tail)).1 ≡ done (rejected w)
      → distance b N L s.queue.head s.queue.tail ≡ N
  unfolding step
  rejected_is_full w k tail at gives =
      let (x, inv) = Reach-Inv g n patience far r in
      let v = inv.memory in
      let (m, was, _) = subst (Local g x (s.age i) i) at (inv.threads i) in
      let equal = ==→eq _ tail (first_way _ _ _ _ (λ e. cc e) gives) in
      let now : x.takes + N ≡ m =
        near_position g (x.takes + N) m (omega (arith, was, v.ordered, v.within))
          (omega (arith, was, v.ordered, v.within))
          (sym (ap₂ (wrapping_add (index_bits b)) v.head v.lap ∙ add_lap g x.takes)
            ∙ equal
            ∙ was.0) in
      memory_count g v N (omega (arith, was, v.within)) (omega arith)

  -- With any number of threads in any interleaving, the answer of `len` is at most N, however
  -- the other threads move the head and the tail between its three loads. The condition: while a
  -- thread works on a position that it has loaded, the threads make fewer than `patience`
  -- accesses, and these with three laps of the buffer are no more than the positions of the
  -- words.
  pub count_within :
      (tail head : ℕ) (d : ℕ)
      → s.at i ≡ len_again tail head
      → (step b N f s.queue (len_again tail head)).1 ≡ done (count d)
      → d ≤ N
  unfolding step
  count_within tail head d at gives =
      let (x, inv) = Reach-Inv g n patience far r in
      let v = inv.memory in
      let (m, was, (h, k, is, _, near)) = subst (Local g x (s.age i) i) at (inv.threads i) in
      let test = first_way (s.queue.tail == tail) _ _ _ (λ e. cc e) gives in
      let now : m ≡ x.puts =
        near_position g m x.puts (omega (arith, was, g.cap_pos)) (omega (arith, was, g.cap_pos))
          (sym was.0 ∙ sym (==→eq _ _ test) ∙ v.tail) in
      let counted : distance b N s.queue.one_lap head tail ≡ k =
        ap₂ (distance b N s.queue.one_lap) is (was.0 ∙ ap (position g) (near now).0)
        ∙ ap (λ l. distance b N l (position g h) (position g (h + k))) v.lap
        ∙ distance-position g h k (near now).1 in
      let answer : distance b N s.queue.one_lap head tail ≡ d = cc (
        sym (
          ap (λ c. if c then done (count (distance b N s.queue.one_lap head tail)) else len_tail)
            test)
        ∙ gives) in
      omega (arith, near now, counted, answer)
