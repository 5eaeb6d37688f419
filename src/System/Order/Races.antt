-- ===== src/System/Order/Races.antt =====
-- No two accesses to a payload race: each happens after all those before it.
use nure_queue.Common.{
  ℕ, ◌+◌, ◌*◌, ◌≤◌, ◌<◌, ◌≡◌, ◌≢◌, refl, sym, ap, subst, ◌∙◌, true, false, Option, none, some,
  arith,
}
use nure_queue.Common.Family.{update_self, update_ne}
use nure_queue.Target.{Build}
use nure_queue.Lap.{index_of}
use nure_queue.Lap.Geometry.{Geometry}
use nure_queue.Queue.{Queue}
use nure_queue.Thread.{Reply, Point, done, Call, entry}
use nure_queue.Thread.Step.{step}
use nure_queue.System.{System, relies, moved, next_age, Step, move, call}
use nure_queue.System.Invariant.Defs.{Ghost, owner, Local}
use nure_queue.System.Invariant.Owns.{uses, slot_of}
use nure_queue.System.Invariant.All.{Inv, new-Inv, new_ghost, Step-Inv}
use nure_queue.System.Safety.{uses_own}
use nure_queue.System.Order.{
  Clocks, Effect, nothing, touches, effect, tick, after, Ordered, start, later,
}
use nure_queue.System.Order.Kinds.{Live, Kind, load, touch, release, gain, other, kind}
use nure_queue.System.Order.Kept.{
  Clocked, other-Clocked, gain-Clocked, load-Clocked, touch-Clocked, release-Clocked,
}
use nure_queue.System.Order.Exchange.{Live-owner, Live-before}

module _ {A : Type 0} (b : Build) (L : ℕ) (s : System A) where
  -- The slot that thread `i` has to itself.
  abbrev slots : ℕ → Option ℕ
  slots i = slot_of b L (s.at i)

  -- An exchange of thread `i` that will succeed, and gain slot `k`.
  abbrev LiveAt : ℕ → ℕ → ℕ → Type 0
  LiveAt patience i k =
      (s.age i < patience) × ((w : ℕ) × Live b s.queue (s.at i) w × (index_of b L w ≡ k))

module _ {A : Type 0} (b : Build) (L : ℕ) where
  slot_of-uses :
      (p : Point A) {o : Option ℕ}
      → uses p ≡ o
      → slot_of b L p ≡ elim o [ none ↦ none | some w ↦ some (index_of b L w) ]
  slot_of-uses p e = ap (λ o. elim o [ none ↦ none | some w ↦ some (index_of b L w) ]) e

module _ {A : Type 0} {b : Build} {N L : ℕ} (g : Geometry b N L) (patience : ℕ)
    (far : patience + 3 * N ≤ N * g.laps) where
  owner_of_uses :
      (x : Ghost A) (a i : ℕ) (p : Point A) (o : Option ℕ) (k : ℕ)
      → Local g x a i p
      → uses p ≡ o
      → slot_of b L p ≡ some k
      → owner (x.stage k) ≡ some i
  owner_of_uses x a i p none k l e is = cc (is, slot_of-uses b L p e)
  owner_of_uses x a i p (some w) k l e is =
      let same : index_of b L w ≡ k = cc (is, slot_of-uses b L p e) in
      ap (λ m. owner (x.stage m)) (sym same) ∙ uses_own g x a i p w l e

  module _ {x : Ghost A} {s : System A} (inv : Inv g x s) where
    slot-owner : (i k : ℕ) → slots b L s i ≡ some k → owner (x.stage k) ≡ some i
    slot-owner i k is =
        owner_of_uses x (s.age i) i (s.at i) (uses (s.at i)) k (inv.threads i) refl is

    alone : (i j k : ℕ) → slots b L s i ≡ some k → slots b L s j ≡ some k → j ≡ i
    alone i j k mine theirs = cc (slot-owner i k mine, slot-owner j k theirs)

    live_free : (i k : ℕ) → LiveAt b L s patience i k → (j : ℕ) → slots b L s j ≢ some k
    live_free i k (soon, (w, l, at)) j is = cc (
      slot-owner j k is,
      Live-owner g (s.age i) patience far soon i inv.memory (s.at i) w (inv.threads i) l,
      ap (λ m. owner (x.stage m)) at,
    )

  module _ {x y : Ghost A} {s : System A} (inv : Inv g x s) (i : ℕ) (q : Queue A) (p : Point A)
      (inv' : Inv g y (moved s i (q, p))) where
    abbrev t : System A
    t = moved s i (q, p)

    at_self : slots b L t i ≡ slot_of b L p
    at_self = ap (slot_of b L) (update_self s.at p i i refl)

    at_other : (j : ℕ) → j ≢ i → slots b L t j ≡ slots b L s j
    at_other j ne = ap (slot_of b L) (update_ne s.at p i j (λ e. ne (sym e)))

    Live-self : (u k : ℕ) → Live b q (t.at i) u → Live b q p u
    Live-self u k l = subst (λ z. Live b q z u) (update_self s.at p i i refl) l

    live_other :
        (x.puts ≤ y.puts) × (y.puts ≤ x.puts + 1)
        → (x.takes ≤ y.takes) × (y.takes ≤ x.takes + 1)
        → (j k : ℕ) → j ≢ i
        → LiveAt b L t patience j k
        → LiveAt b L s patience j k
    live_other puts takes j k ne (soon, (w, l, is)) =
        let age = update_ne (λ m. s.age m + 1) (next_age (s.age i) p) i j (λ e. ne (sym e)) in
        let young : s.age j < patience = omega (arith, soon, age) in
        (
          young,
          (
            w,
            Live-before g (s.age j) patience far young j inv.memory inv'.memory puts takes (s.at j)
                w (inv.threads j)
                (subst (λ z. Live b q z w) (update_ne s.at p i j (λ e. ne (sym e))) l),
            is,
          ),
        )

    ticked :
        (c : Clocks) {e : Effect}
        → effect (s.at i) ≡ e
        → Clocked (slots b L t) (LiveAt b L t patience) (tick b L i e c)
        → Clocked (slots b L t) (LiveAt b L t patience) (tick b L i (effect (s.at i)) c)
    ticked c eff v =
        subst (λ e. Clocked (slots b L t) (LiveAt b L t patience) (tick b L i e c)) (sym eff) v

    by-Kind :
        (c : Clocks)
        → (x.puts ≤ y.puts) × (y.puts ≤ x.puts + 1)
        → (x.takes ≤ y.takes) × (y.takes ≤ x.takes + 1)
        → (relies (s.at i) ≡ true → s.age i < patience)
        → Kind b s.queue (s.at i) q p
        → Clocked (slots b L s) (LiveAt b L s patience) c
        → Clocked (slots b L t) (LiveAt b L t patience) (tick b L i (effect (s.at i)) c)
    by-Kind c puts takes fresh (load w eff before now only) v = ticked c eff (
        load-Clocked i at_other (live_other puts takes) v (index_of b L w)
          (slot_of-uses b L (s.at i) before) (at_self ∙ slot_of-uses b L p now)
          (λ m l. sym l.1.2 ∙ ap (index_of b L) (only l.1.0 (Live-self l.1.0 m l.1.1)))
          (λ m l. live_free inv' i m l))
    by-Kind c puts takes fresh (touch w eff before now none_live) v = ticked c eff (
        touch-Clocked i at_other (live_other puts takes) v (index_of b L w)
          (slot_of-uses b L (s.at i) before) (at_self ∙ slot_of-uses b L p now)
          (λ m l. none_live l.1.0 (Live-self l.1.0 m l.1.1))
          (λ j theirs. alone inv i j (index_of b L w) (slot_of-uses b L (s.at i) before) theirs)
          (λ j m l. live_free inv j m l i))
    by-Kind c puts takes fresh (release w eff before now none_live) v = ticked c eff (
        release-Clocked i at_other (live_other puts takes) v (index_of b L w)
          (slot_of-uses b L (s.at i) before) (at_self ∙ slot_of-uses b L p now)
          (λ m l. none_live l.1.0 (Live-self l.1.0 m l.1.1)))
    by-Kind c puts takes fresh (gain w eff before now active l none_live) v = ticked c eff (
        gain-Clocked i at_other (live_other puts takes) v (index_of b L w)
          (slot_of-uses b L (s.at i) before) (at_self ∙ slot_of-uses b L p now)
          (fresh active, (w, l, refl)) (λ m l. none_live l.1.0 (Live-self l.1.0 m l.1.1)))
    by-Kind c puts takes fresh (other eff same none_live) v = ticked c eff (
        other-Clocked i at_other (live_other puts takes) v (at_self ∙ slot_of-uses b L p same)
          (λ m l. none_live l.1.0 (Live-self l.1.0 m l.1.1)))

  entry-Kind : (q : Queue A) (r : Reply A) (d : Call A) → Kind b q (done r) q (entry d)
  unfolding entry
  entry-Kind q r (Call.push v) = other refl refl (λ u h. h)
  entry-Kind q r (Call.force_push v) = other refl refl (λ u h. h)
  entry-Kind q r Call.pop = other refl refl (λ u h. h)
  entry-Kind q r Call.is_empty = other refl refl (λ u h. h)
  entry-Kind q r Call.is_full = other refl refl (λ u h. h)
  entry-Kind q r Call.len = other refl refl (λ u h. h)

  Step-Clocked :
      {n : ℕ} {x y : Ghost A} {s t : System A} {c : Clocks}
      → Inv g x s
      → (w : Step b N n patience s t) → Inv g y t
      → (x.puts ≤ y.puts) × (y.puts ≤ x.puts + 1)
      → (x.takes ≤ y.takes) × (y.takes ≤ x.takes + 1)
      → Clocked (slots b L s) (LiveAt b L s patience) c
      → Clocked (slots b L t) (LiveAt b L t patience) (after b N n patience w c)
  Step-Clocked {s = s} {c = c} inv (move i f lt fresh) inv' puts takes v =
      let (q, p) = step b N f s.queue (s.at i) in
      subst
        (λ lap.
          Clocked (slots b L (moved s i (q, p))) (LiveAt b L (moved s i (q, p)) patience)
            (tick b lap i (effect (s.at i)) c))
        (sym inv.memory.lap)
        (by-Kind inv i q p inv' c puts takes fresh
          (kind g i f inv.memory (s.age i) (s.at i) (inv.threads i)) v)
  Step-Clocked {s = s} {c = c} inv (call i r d lt e) inv' puts takes v =
      let quiet : effect (s.at i) ≡ nothing = ap effect e in
      subst
        (λ z.
          Clocked (slots b L (moved s i (s.queue, entry d)))
            (LiveAt b L (moved s i (s.queue, entry d)) patience) (tick b L i z c))
        quiet
        (by-Kind inv i s.queue (entry d) inv' c puts takes (λ h. cc (h, ap relies e))
          (subst (λ z. Kind b s.queue z s.queue (entry d)) (sym e) (entry-Kind s.queue r d)) v)

  Ordered-Clocked :
      {n : ℕ} {first : ℕ → Call A} {s : System A} {c : Clocks}
      → Ordered b N n patience L first s c
      → (x : Ghost A) × Inv g x s × Clocked (slots b L s) (LiveAt b L s patience) c
  Ordered-Clocked {first = first} start = (
    new_ghost g first,
    new-Inv g first,
    record {
      known_le = λ i k. omega arith;
      released_le = λ k. omega arith;
      owned = λ i k has. refl;
      free = λ k none_has. refl;
      live = λ i k l. refl;
    },
  )
  Ordered-Clocked {n} (later r w) =
      let (x, inv, v) = Ordered-Clocked r in
      let (y, inv', _, puts, takes) = Step-Inv g n patience far inv w in
      (y, inv', Step-Clocked inv w inv' puts takes v)

touches-uses :
    {A : Type 0} (b : Build) (w : ℕ) {q q' : Queue A} {p p' : Point A}
    → Kind b q p q' p'
    → effect p ≡ touches w
    → uses p ≡ some w
touches-uses b w (load u eff before now only) e = cc (eff, e)
touches-uses b w (touch u eff before now none_live) e = cc (eff, e, before)
touches-uses b w (release u eff before now none_live) e = cc (eff, e)
touches-uses b w (gain u eff before now active l none_live) e = cc (eff, e)
touches-uses b w (other eff same none_live) e = cc (eff, e)

module _ {A : Type 0} {b : Build} {N L : ℕ} (g : Geometry b N L) where
  -- In every state that a new queue gets into by any interleaving of any number of threads, where a thread
  -- is about to write, read or replace the payload of a slot: of the accesses that all threads have made to
  -- that payload, as many happen before this one as there are. They do so by the order of each thread
  -- and by release stores of the slot's stamp with the acquire loads that read them; no other access to
  -- shared memory is counted on to order anything. The condition: while a thread works on a position that
  -- it has loaded, the threads make fewer than `patience` accesses, and these with three laps of the
  -- buffer are no more than the positions of the words.
  pub no_race :
      (n patience : ℕ) (first : ℕ → Call A) (s : System A) (c : Clocks)
      → patience + 3 * N ≤ N * g.laps
      → Ordered b N n patience L first s c
      → (i w : ℕ) → effect (s.at i) ≡ touches w
      → c.known i (index_of b L w) ≡ c.accesses (index_of b L w)
  no_race n patience first s c far r i w touching =
      let (x, inv, v) = Ordered-Clocked g patience far r in
      v.owned i (index_of b L w) (
        slot_of-uses b L (s.at i) (
          touches-uses b w (kind g i false inv.memory (s.age i) (s.at i) (inv.threads i)) touching))
