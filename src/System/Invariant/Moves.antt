-- ===== src/System/Invariant/Moves.antt =====
-- What an access does to the tickets, and the accesses that change only one slot.
use nure_queue.Atomic.{Status, Act, wait}
use nure_queue.System.Invariant.Defs.{contents}
use nure_queue.System.Invariant.Frame.{Advance-status}
use nure_queue.Common.{
  ℕ, ◌%◌, ◌≡◌, refl, sym, ap, ap₂, subst, ◌∙◌, ◌⊎◌, inl, inr, Option, some, ℕ_discrete, Bool, true,
  false, ◌&&◌, not, ◌==◌, if◌then◌else◌, arith,
}
use nure_queue.Common.Family.{update, update_self, update_ne}
use nure_queue.Target.{Build}
use nure_queue.Lap.{index_of}
use nure_queue.Lap.Geometry.{Geometry}
use nure_queue.Lap.Ticket.{position, slot-lt, index_of-position}
use nure_queue.Queue.{Queue}
use nure_queue.Thread.{Point}
use nure_queue.Thread.Step.Laws.{put_slot, put_slot_self, put_slot_ne}
use nure_queue.System.{next_age}
use nure_queue.System.Invariant.Defs.{
  Stage, Ghost, owner, ticket_of, Bounds, stamp_of, content_of, Memory, At, Local,
}
use nure_queue.System.Invariant.Frame.{MayChange, Advance, Advance-refl}
use nure_queue.System.Invariant.Owns.{slot_of, Owns, other_owner}
use nure_queue.Common.{none}
use nure_queue.System.Invariant.Change.{Change-Memory}

-- A slot that a thread has to itself is its to change.
pub MayChange-owner :
    {A : Type 0} (i : ℕ) (x y : Ghost A) (s : Stage) → owner s ≡ some i → MayChange i x y s
MayChange-owner i x y s own = record {
  mine = λ j ne e. ne (cc (sym e ∙ own));
  taken = λ e. absurd (cc (own, ap owner e));
  given = λ e. absurd (cc (own, ap owner e));
}

-- Where one slot changes, thread `i` may change it.
pub one_stage :
    {A : Type 0} (i k : ℕ) (s : Stage) (x y : Ghost A)
    → MayChange i x y (x.stage k)
    → (j : ℕ) → (update x.stage k s j ≡ x.stage j) ⊎ MayChange i x y (x.stage j)
one_stage i k s x y may j = elim (ℕ_discrete j k) [
  | yes e ↦ inr (subst (λ m. MayChange i x y (x.stage m)) (sym e) may)
  | no ne ↦ inl (update_ne x.stage s k j (λ e. ne (sym e)))
]

-- A compare-exchange that succeeds has found the value that it expects.
pub won : (m n : ℕ) (f : Bool) → ((m == n) && not f) ≡ true → m ≡ n
won m n f e = ground arith

module _ {A : Type 0} {b : Build} {N L : ℕ} (g : Geometry b N L) (i : ℕ) where
  -- After an access of thread `i`, which had loaded its position `a` accesses ago, the invariant is
  -- true for the next tickets, values and stages.
  -- `o` is the slot that the thread had to itself.
  abbrev pub Next : ℕ → Ghost A → Option ℕ → Queue A × Point A → Type 0
  Next a x o (q, p) =
      (y : Ghost A) × Memory g y q
      × Local g y (next_age a p) i p
      × Advance N i x y
      × (Owns x.stage i o → Owns y.stage i (slot_of b L p))

  -- An access that only reads.
  pub stay :
      (a : ℕ) {x : Ghost A} {q : Queue A} (p : Point A)
      → Memory g x q
      → Local g x (next_age a p) i p
      → Next a x none (q, p)
  stay a {x = x} p v l =
      (x, v, l, Advance-refl N i x, λ none_own k own. absurd (cc (none_own k own)))

  -- A thread settles what it is at by the specification, with no effect on the memory.
  abbrev pub settled : Ghost A → Status A → Ghost A
  settled x s = record x { status = update x.status i s }

  pub settled-Memory :
      {x : Ghost A} {q : Queue A} (s : Status A) → Memory g x q → Memory g (settled x s) q
  settled-Memory s v = record {
    lap = v.lap;
    head = v.head;
    tail = v.tail;
    ordered = v.ordered;
    within = v.within;
    known = v.known;
    slots = λ k lt.
        let here = v.slots k lt in
        record { index = here.index; bounds = here.bounds; slot = here.slot };
  }

  pub settle :
      (a : ℕ) {x : Ghost A} {q : Queue A} (p : Point A) {s : Status A} (s' : Status A)
      → Memory g x q
      → x.status i ≡ s
      → Act N (contents x) s (contents x) s'
      → (update x.status i s' i ≡ s' → Local g (settled x s') (next_age a p) i p)
      → Next a x none (q, p)
  settle a {x = x} p s' v st act l = (
    settled x s',
    settled-Memory s' v,
    l (update_self x.status s' i i refl),
    Advance-status N i x s' (subst (λ s. Act N (contents x) s (contents x) s') (sym st) act),
    λ none_own k own. absurd (cc (none_own k own)),
  )

  -- The two ways of a test.
  pub if_Next :
      (a : ℕ) (x : Ghost A) (test : Bool) (u w : Queue A × Point A)
      → (test ≡ true → Next a x none u)
      → (test ≡ false → Next a x none w)
      → Next a x none (if test then u else w)
  if_Next a x true u w one two = one refl
  if_Next a x false u w one two = two refl

  pub if_here :
      (a : ℕ) (x : Ghost A) (test : Bool) (u w : Point A)
      → (test ≡ true → Local g x (next_age a u) i u)
      → (test ≡ false → Local g x (next_age a w) i w)
      → Local g x (next_age a (if test then u else w)) i (if test then u else w)
  if_here a x true u w one two = one refl
  if_here a x false u w one two = two refl

  pub if_then-Next :
      (a : ℕ) (x : Ghost A) (q : Queue A) (test : Bool) (p p' : Point A)
      → (test ≡ true → Next a x none (q, p))
      → (test ≡ false → Next a x none (q, p'))
      → Next a x none (q, (if test then p else p'))
  if_then-Next a x q true p p' one two = one refl
  if_then-Next a x q false p p' one two = two refl

module _ {A : Type 0} {b : Build} {N L : ℕ} (g : Geometry b N L) (i : ℕ) {x : Ghost A} {q : Queue A}
    (v : Memory g x q) where
  -- The slot of a position, with its stage known.
  pub slot_index : (n : ℕ) {w : ℕ} → w ≡ position g n → index_of b q.one_lap w ≡ n % N
  slot_index n e = ap₂ (index_of b) v.lap e ∙ index_of-position g n

  pub slot-At :
      (n : ℕ) {s : Stage}
      → At g x n s
      → q.buffer (n % N) ≡ some (record { stamp = stamp_of g s; value = content_of N x.value s })
  slot-At n here =
      (v.slots (n % N) (slot-lt g n)).slot
      ∙ ap (λ s. some (record { stamp = stamp_of g s; value = content_of N x.value s })) here

  pub Bounds-At : (n : ℕ) {s : Stage} → At g x n s → Bounds N x.takes x.puts s
  Bounds-At n here = subst (Bounds N x.takes x.puts) here (v.slots (n % N) (slot-lt g n)).bounds

  abbrev pub staged : ℕ → Stage → Ghost A
  staged k s = record x { stage = update x.stage k s }

  -- Thread `i` changes its slot, of ticket `n`, from stage `s` to `s'`.
  pub change_slot :
      (n : ℕ) (s s' : Stage) (m : ℕ) (o : Option A)
      → At g x n s
      → owner s ≡ some i
      → ticket_of s' % N ≡ n % N
      → Bounds N x.takes x.puts s'
      → m ≡ stamp_of g s'
      → o ≡ content_of N x.value s'
      → (owner s' ≡ none) ⊎ (owner s' ≡ some i)
      → Memory g (staged (n % N) s') (put_slot q (n % N) (record { stamp = m; value = o }))
        × At g (staged (n % N) s') n s'
        × Advance N i x (staged (n % N) s')
  change_slot n s s' m o here own index bounds st co whose = (
    Change-Memory g v (record {
      takes = inl refl;
      puts = inl refl;
      lap = refl;
      head = v.head;
      tail = v.tail;
      ordered = v.ordered;
      within = v.within;
      values = λ j h. refl;
      known = λ h. absurd (omega arith);
      stages = λ j ne. update_ne x.stage s' (n % N) j (λ e. ne (sym e));
      buffer = put_slot_ne q (n % N) _;
      here = record {
        index = ap (λ t. ticket_of t % N) now ∙ index;
        bounds = subst (Bounds N x.takes x.puts) (sym now) bounds;
        slot =
            put_slot_self q (n % N) _
            ∙ ap₂ (λ w c. some (record { stamp = w; value = c })) (st ∙ ap (stamp_of g) (sym now))
                (co ∙ ap (content_of N x.value) (sym now));
      };
    }),
    now,
    record {
      keeps = record {
        puts_up = omega arith;
        takes_up = omega arith;
        once = omega arith;
        values = λ j h. refl;
        stages =
            one_stage i (n % N) s' x _
              (subst (MayChange i x (staged (n % N) s')) (sym here) (MayChange-owner i x _ s own));
        others = λ j ne. refl;
        owners = other_owner x.stage i (n % N) s' whose;
      };
      acts = wait;
    },
  )
    where
      now : update x.stage (n % N) s' (n % N) ≡ s'
      now = update_self x.stage s' (n % N) (n % N) refl
