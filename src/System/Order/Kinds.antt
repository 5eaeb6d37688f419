-- ===== src/System/Order/Kinds.antt =====
-- What an access of a thread is to the slots: an acquire load, an access to a payload that the thread has
-- to itself, a release of it, the exchange that gains it, or none of these.
use nure_queue.Common.{
  ℕ, ◌+◌, ◌%◌, ◌≡◌, refl, sym, subst, ◌∙◌, Bool, true, false, ◌&&◌, not, none, some, ◌==◌, ==→eq,
  if◌then◌else◌, arith,
}
use nure_queue.Target.{Build, index_bits, wrapping_add, wrapping_sub}
use nure_queue.Lap.{distance}
use nure_queue.Lap.Geometry.{Geometry}
use nure_queue.Backoff.{Backoff, spin, snooze}
use nure_queue.Queue.{Queue}
use nure_queue.Thread.{
  rejected, option, count, Closure, when_full, ring, Point, push_tail, push_stamp, push_claim,
  push_write, push_publish, full_head, ring_claim, ring_tail, ring_replace, ring_publish, pop_head,
  pop_stamp, pop_claim, pop_read, pop_publish, pop_tail, empty_head, empty_tail, full_tail,
  full_check, len_tail, len_head, len_again, done, fault,
}
use nure_queue.Thread.Step.{step, after_push_stamp, after_pop_stamp}
use nure_queue.Thread.Step.Laws.{
  step-push_stamp, step-pop_stamp, step-push_write, step-push_publish, step-ring_replace,
  step-ring_publish, step-pop_read, step-pop_publish,
}
use nure_queue.System.Invariant.Defs.{Ghost, Memory, Local, stamp_of}
use nure_queue.System.{relies}
use nure_queue.System.Invariant.Owns.{uses}
use nure_queue.System.Invariant.Moves.{slot_index, slot-At, Bounds-At}
use nure_queue.System.Alone.Own.{with_value}
use nure_queue.System.Order.{nothing, acquires, touches, releases, effect}
use native.Mathlib.Nat.{add-mod_right}

-- An exchange that will find the word it expects, for the position `w`.
abbrev pub Live : {A : Type 0} → Build → Queue A → Point A → ℕ → Type 0
Live b q (push_claim c v k tail) w = (q.tail ≡ tail) × (w ≡ tail)
Live b q (ring_claim v k tail) w =
    (q.head ≡ wrapping_sub (index_bits b) tail q.one_lap) × (w ≡ tail)
Live b q (pop_claim k head) w = (q.head ≡ head) × (w ≡ head)
Live b q p w = ⊥

pub data Kind {A : Type 0} (b : Build) (q : Queue A) (p : Point A) (q' : Queue A) (p' : Point A)
    : Type 0 where
  load :
      (w : ℕ)
      → effect p ≡ acquires w
      → uses p ≡ none
      → uses p' ≡ none
      → ((u : ℕ) → Live b q' p' u → u ≡ w)
      → Kind b q p q' p'
  touch :
      (w : ℕ)
      → effect p ≡ touches w
      → uses p ≡ some w
      → uses p' ≡ some w
      → ((u : ℕ) → ¬ Live b q' p' u)
      → Kind b q p q' p'
  release :
      (w : ℕ)
      → effect p ≡ releases w
      → uses p ≡ some w
      → uses p' ≡ none
      → ((u : ℕ) → ¬ Live b q' p' u)
      → Kind b q p q' p'
  gain :
      (w : ℕ)
      → effect p ≡ nothing
      → uses p ≡ none
      → uses p' ≡ some w
      → relies p ≡ true
      → Live b q p w
      → ((u : ℕ) → ¬ Live b q' p' u)
      → Kind b q p q' p'
  other : effect p ≡ nothing → uses p' ≡ uses p → ((u : ℕ) → ¬ Live b q' p' u) → Kind b q p q' p'

module _ {A : Type 0} {b : Build} {N L : ℕ} (g : Geometry b N L) (i : ℕ) (f : Bool) {x : Ghost A}
    {q : Queue A} (v : Memory g x q) where
  abbrev KindOf : Point A → Queue A × Point A → Type 0
  KindOf p (q', p') = Kind b q p q' p'

  Kind-eq :
      (p : Point A) {s : Queue A × Point A}
      → step b N f q p ≡ s
      → KindOf p s
      → KindOf p (step b N f q p)
  Kind-eq p e k = subst (KindOf p) (sym e) k

  Kind-if :
      (p : Point A) (t : Bool) (s s' : Queue A × Point A)
      → (t ≡ true → KindOf p s)
      → KindOf p s'
      → KindOf p (if t then s else s')
  Kind-if p true s s' one two = one refl
  Kind-if p false s s' one two = two

  Kind-either :
      (p : Point A) (t : Bool) (u u' : Point A)
      → KindOf p (q, u)
      → KindOf p (q, u')
      → KindOf p (q, (if t then u else u'))
  Kind-either p true u u' one two = one
  Kind-either p false u u' one two = two

  -- A stamp of the lap before.
  Kind-behind :
      (c : Closure) (u : A) (k : Backoff) (tail : ℕ)
      → KindOf
          (push_stamp c u k tail)
          (q, elim c [ when_full ↦ full_head u k tail | ring ↦ ring_claim u k tail ])
  Kind-behind when_full u k tail = load tail refl refl refl (λ w h. absurd h)
  Kind-behind ring u k tail = load tail refl refl refl (λ w h. h.1)

  &&-first : (s t : Bool) → (s && t) ≡ true → s ≡ true
  &&-first true t e = refl
  &&-first false t e = cc

  pub kind : (a : ℕ) (p : Point A) → Local g x a i p → KindOf p (step b N f q p)
  unfolding step after_push_stamp after_pop_stamp
  kind a (push_tail c u k) l = other refl refl (λ w h. h)
  kind a (push_stamp c u k tail) (n, was, _) =
      Kind-eq (push_stamp c u k tail)
        (step-push_stamp b N f q tail (n % N) _ _ (slot_index g i v n was.0) (slot-At g i v n refl)
          c u k)
        (Kind-either (push_stamp c u k tail) (tail == stamp_of g (x.stage (n % N)))
          (push_claim c u k tail) _ (load tail refl refl refl (λ w h. h.1))
          (Kind-either (push_stamp c u k tail)
            (wrapping_add (index_bits b) (stamp_of g (x.stage (n % N))) q.one_lap
              == wrapping_add (index_bits b) tail 1)
            (elim c [ when_full ↦ full_head u k tail | ring ↦ ring_claim u k tail ])
            (push_tail c u (snooze b k).0) (Kind-behind c u k tail)
            (load tail refl refl refl (λ w h. absurd h))))
  kind a (push_claim c u k tail) l =
      Kind-if (push_claim c u k tail) (q.tail == tail && not f) _ _
        (λ t. gain tail refl refl refl refl (==→eq _ _ (&&-first _ _ t), refl) (λ w h. h))
        (other refl refl (λ w h. h))
  kind a (push_write c u tail) (n, e, here, _, _) =
      Kind-eq (push_write c u tail)
        (step-push_write b N f q tail (n % N) _ _ (slot_index g i v n e) (slot-At g i v n here) c u)
        (touch tail refl refl refl (λ w h. h))
  kind a (push_publish c tail) (n, e, here, _) =
      Kind-eq (push_publish c tail)
        (step-push_publish b N f q tail (n % N) _ _ (slot_index g i v n e) (slot-At g i v n here) c)
        (release tail refl refl refl (λ w h. h))
  kind a (full_head u k tail) l =
      Kind-either (full_head u k tail) (wrapping_add (index_bits b) q.head q.one_lap == tail)
        (done (rejected u)) (push_tail when_full u (spin b k).0) (other refl refl (λ w h. h))
        (other refl refl (λ w h. h))
  kind a (ring_claim u k tail) l =
      Kind-if (ring_claim u k tail) (q.head == wrapping_sub (index_bits b) tail q.one_lap && not f)
        _ _ (λ t. gain tail refl refl refl refl (==→eq _ _ (&&-first _ _ t), refl) (λ w h. h))
        (other refl refl (λ w h. h))
  kind a (ring_tail u tail) l = other refl refl (λ w h. h)
  kind a (ring_replace u tail) (n, e, here, _, _) =
      let (old, is) = v.known n (omega (arith, Bounds-At g i v n here)) in
      Kind-eq (ring_replace u tail)
        (step-ring_replace b N f q tail (n % N) _ old
          (slot_index g i v (n + N) e ∙ add-mod_right n N) (with_value g i v n here is) u)
        (touch tail refl refl refl (λ w h. h))
  kind a (ring_publish old tail) (n, e, here, _) =
      Kind-eq (ring_publish old tail)
        (step-ring_publish b N f q tail (n % N) _ _ (slot_index g i v (n + N) e ∙ add-mod_right n N)
          (slot-At g i v n here) old)
        (release tail refl refl refl (λ w h. h))
  kind a (pop_head k) l = other refl refl (λ w h. h)
  kind a (pop_stamp k head) (n, was, _) =
      Kind-eq (pop_stamp k head)
        (step-pop_stamp b N f q head (n % N) _ _ (slot_index g i v n was.0) (slot-At g i v n refl)
          k)
        (Kind-either (pop_stamp k head)
          (wrapping_add (index_bits b) head 1 == stamp_of g (x.stage (n % N))) (pop_claim k head) _
          (load head refl refl refl (λ w h. h.1))
          (Kind-either (pop_stamp k head) (stamp_of g (x.stage (n % N)) == head) (pop_tail k head)
            (pop_head (snooze b k).0) (load head refl refl refl (λ w h. absurd h))
            (load head refl refl refl (λ w h. absurd h))))
  kind a (pop_claim k head) l =
      Kind-if (pop_claim k head) (q.head == head && not f) _ _
        (λ t. gain head refl refl refl refl (==→eq _ _ (&&-first _ _ t), refl) (λ w h. h))
        (other refl refl (λ w h. h))
  kind a (pop_read head) (n, e, here, _) =
      let (old, is) = v.known n (omega (arith, Bounds-At g i v n here, v.ordered)) in
      Kind-eq (pop_read head)
        (step-pop_read b N f q head (n % N) _ old (slot_index g i v n e)
          (with_value g i v n here is))
        (touch head refl refl refl (λ w h. h))
  kind a (pop_publish u head) (n, e, here, _) =
      Kind-eq (pop_publish u head)
        (step-pop_publish b N f q head (n % N) _ _ (slot_index g i v n e) (slot-At g i v n here) u)
        (release head refl refl refl (λ w h. h))
  kind a (pop_tail k head) l =
      Kind-either (pop_tail k head) (q.tail == head) (done (option none)) (pop_head (spin b k).0)
        (other refl refl (λ w h. h)) (other refl refl (λ w h. h))
  kind a empty_head l = other refl refl (λ w h. h)
  kind a (empty_tail head) l = other refl refl (λ w h. h)
  kind a full_tail l = other refl refl (λ w h. h)
  kind a (full_check tail) l = other refl refl (λ w h. h)
  kind a len_tail l = other refl refl (λ w h. h)
  kind a (len_head tail) l = other refl refl (λ w h. h)
  kind a (len_again tail head) l =
      Kind-either (len_again tail head) (q.tail == tail)
        (done (count (distance b N q.one_lap head tail))) len_tail (other refl refl (λ w h. h))
        (other refl refl (λ w h. h))
  kind a (done r) l = other refl refl (λ w h. h)
  kind a fault l = absurd l
