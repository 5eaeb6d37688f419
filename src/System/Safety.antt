-- ===== src/System/Safety.antt =====
-- No schedule of threads makes the queue read a slot that holds no value, or two threads use one slot.
use nure_queue.Common.{ℕ, ◌+◌, ◌*◌, ◌%◌, ◌≤◌, ◌≡◌, ◌≢◌, refl, ap, subst, ◌∙◌, some}
use nure_queue.Target.{Build}
use nure_queue.Lap.{index_of}
use nure_queue.Lap.Geometry.{Geometry}
use nure_queue.Lap.Ticket.{position, index_of-position}
use nure_queue.Thread.{
  Point, push_tail, push_stamp, push_claim, push_write, push_publish, full_head, ring_claim,
  ring_tail, ring_replace, ring_publish, pop_head, pop_stamp, pop_claim, pop_read, pop_publish,
  pop_tail, empty_head, empty_tail, full_tail, full_check, len_tail, len_head, len_again, done,
  fault, Call,
}
use nure_queue.System.{System, Reach}
use nure_queue.System.Invariant.Defs.{Stage, Ghost, owner, At, Local}
use nure_queue.System.Invariant.Owns.{uses}
use nure_queue.System.Invariant.All.{Reach-Inv}
use native.Mathlib.Nat.{add-mod_right}

module _ {A : Type 0} {b : Build} {N L : ℕ} (g : Geometry b N L) where
  own_slot :
      (x : Ghost A) (i m n u w : ℕ) (s : Stage)
      → u ≡ position g m
      → m % N ≡ n % N
      → At g x n s
      → owner s ≡ some i
      → some u ≡ some w
      → owner (x.stage (index_of b L w)) ≡ some i
  own_slot x i m n u w s e same here own is =
      let word : w ≡ position g m = cc (is, e) in
      ap (λ k. owner (x.stage k)) (ap (index_of b L) word ∙ index_of-position g m ∙ same)
      ∙ ap owner here
      ∙ own

  -- The stage of the slot that thread `i` uses names the thread.
  pub uses_own :
      (x : Ghost A) (a i : ℕ) (p : Point A) (w : ℕ)
      → Local g x a i p
      → uses p ≡ some w
      → owner (x.stage (index_of b L w)) ≡ some i
  uses_own x a i (push_write c v tail) w (n, e, here, _, _) is =
      own_slot x i n n tail w _ e refl here refl is
  uses_own x a i (push_publish c tail) w (n, e, here, _) is =
      own_slot x i n n tail w _ e refl here refl is
  uses_own x a i (ring_tail v tail) w (n, e, here, _) is =
      own_slot x i (n + N) n tail w _ e (add-mod_right n N) here refl is
  uses_own x a i (ring_replace v tail) w (n, e, here, _, _) is =
      own_slot x i (n + N) n tail w _ e (add-mod_right n N) here refl is
  uses_own x a i (ring_publish old tail) w (n, e, here, _) is =
      own_slot x i (n + N) n tail w _ e (add-mod_right n N) here refl is
  uses_own x a i (pop_read head) w (n, e, here, _) is =
      own_slot x i n n head w _ e refl here refl is
  uses_own x a i (pop_publish msg head) w (n, e, here, _) is =
      own_slot x i n n head w _ e refl here refl is
  uses_own x a i (push_tail c v k) w l is = absurd (cc is)
  uses_own x a i (push_stamp c v k tail) w l is = absurd (cc is)
  uses_own x a i (push_claim c v k tail) w l is = absurd (cc is)
  uses_own x a i (full_head v k tail) w l is = absurd (cc is)
  uses_own x a i (ring_claim v k tail) w l is = absurd (cc is)
  uses_own x a i (pop_head k) w l is = absurd (cc is)
  uses_own x a i (pop_stamp k head) w l is = absurd (cc is)
  uses_own x a i (pop_claim k head) w l is = absurd (cc is)
  uses_own x a i (pop_tail k head) w l is = absurd (cc is)
  uses_own x a i empty_head w l is = absurd (cc is)
  uses_own x a i (empty_tail head) w l is = absurd (cc is)
  uses_own x a i full_tail w l is = absurd (cc is)
  uses_own x a i (full_check tail) w l is = absurd (cc is)
  uses_own x a i len_tail w l is = absurd (cc is)
  uses_own x a i (len_head tail) w l is = absurd (cc is)
  uses_own x a i (len_again tail head) w l is = absurd (cc is)
  uses_own x a i (done r) w l is = absurd (cc is)
  uses_own x a i fault w l is = absurd (cc is)

  not_fault : (x : Ghost A) (a i : ℕ) (p : Point A) → Local g x a i p → p ≢ fault
  not_fault x a i p l e = subst (Local g x a i) e l

  -- In every state that a new queue gets into by any interleaving of any number of threads, each of
  -- which calls the methods in any order, no thread has read a slot outside the buffer or a payload that
  -- is not initialized. The condition: while a thread works on a position that it has loaded, the
  -- threads make fewer than `patience` accesses, and these with three laps of the buffer are no more than
  -- the positions of the words.
  pub never_faults :
      (n patience : ℕ) (first : ℕ → Call A) (s : System A)
      → patience + 3 * N ≤ N * g.laps
      → Reach b N n patience L first s
      → (i : ℕ) → s.at i ≢ fault
  never_faults n patience first s far r i =
      let (x, inv) = Reach-Inv g n patience far r in
      not_fault x (s.age i) i (s.at i) (inv.threads i)

  -- In every state that a new queue gets into by any interleaving of any number of threads, two
  -- different threads that are between their compare-exchange and the store of the stamp have
  -- different slots. The condition: while a thread works on a position that it has loaded, the
  -- threads make fewer than `patience` accesses, and these with three laps of the buffer are no
  -- more than the positions of the words.
  pub slots_exclusive :
      (n patience : ℕ) (first : ℕ → Call A) (s : System A)
      → patience + 3 * N ≤ N * g.laps
      → Reach b N n patience L first s
      → (i j u w : ℕ) → i ≢ j
      → uses (s.at i) ≡ some u
      → uses (s.at j) ≡ some w
      → index_of b L u ≢ index_of b L w
  slots_exclusive n patience first s far r i j u w ne hi hj same =
      let (x, inv) = Reach-Inv g n patience far r in
      let mine = uses_own x (s.age i) i (s.at i) u (inv.threads i) hi in
      let other = uses_own x (s.age j) j (s.at j) w (inv.threads j) hj in
      ne (cc (mine, other, ap (λ k. owner (x.stage k)) same))
