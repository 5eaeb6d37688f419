-- ===== src/Differential/Drops.antt =====
-- `check_drops` of tests/differential.rs: a payload that counts how often its destructor runs. The test's
-- counters stand in a `Tally`.
use nure_queue.Common.{
  ℕ, zero, suc, ◌+◌, ◌/◌, ◌≤◌, ◌<◌, ◌≡◌, ap, ap₂, ◌∙◌, Bool, true, false, ◌&&◌, List, [], ◌∷◌,
  Option, none, some, length, length-append, ◌==◌, eq→==, arith,
}
use native.Mathlib.Nat.{le_refl}
use nure_queue.Target.{Build, IsTarget, isize_max}
use nure_queue.Lap.Geometry.{Geometry}
use nure_queue.Queue.{Queue, new}
use nure_queue.Queue.New.{new_accepts}
use nure_queue.Thread.{Reply, pushed, rejected, option, Call}
use nure_queue.Fifo
use nure_queue.Solo.{call}
use nure_queue.Solo.Run.{enough}
use nure_queue.Solo.Holds.{Holds, empty_queue-Holds}
use nure_queue.Solo.Refine.{call_refines}
use nure_queue.Drop.{drop}
use nure_queue.Drop.All.{drop_lem}
use nure_queue.Differential.{judge}
use nure_queue.Differential.Passes.{same_reply}

pub record Tally : Type 0 where
  pub drops : ℕ
  pub pushed_ok : ℕ
  pub failed : ℕ

-- What the test does with the reply of an operation: a payload that comes back is dropped.
pub after_op : Call ℕ → Reply ℕ → Tally → Tally
after_op (Call.push v) pushed t = record t { pushed_ok = t.pushed_ok + 1 }
after_op (Call.push v) (rejected w) t = record t { drops = t.drops + 1; failed = t.failed + 1 }
after_op Call.pop (option (some v)) t = record t { drops = t.drops + 1 }
after_op (Call.force_push v) (option (some w)) t = record t {
  drops = t.drops + 1;
  pushed_ok = t.pushed_ok + 1;
}
after_op (Call.force_push v) (option none) t = record t { pushed_ok = t.pushed_ok + 1 }
after_op op r t = t

-- `while q.pop().is_some() {}`: one round.
popped : Option (Reply ℕ × Queue ℕ) → (Queue ℕ → Bool) → (Queue ℕ → Bool) → Bool
popped (some (option (some v), q)) again end = again q
popped (some (option none, q)) again end = end q
popped o again end = false

module _ (b : Build) (N : ℕ) where
  -- The end of the scope of the queue, and the last `assert_eq!`.
  scope_end : Queue ℕ → Tally → Bool
  scope_end q t = elim (drop b N true q) [
    | none ↦ false
    | some (vs, q') ↦ (t.drops + length vs) == (t.pushed_ok + t.failed)
  ]

  -- The loop, on fuel, with the spurious failures of each round.
  drain : ℕ → (ℕ → List Bool) → Queue ℕ → Tally → Bool
  unfolding popped scope_end
  drain zero flags q t = false
  drain (suc fuel) flags q t =
      popped (call b N (enough (flags fuel)) (flags fuel) Call.pop q)
        (λ q'. drain fuel flags q' (record t { drops = t.drops + 1 })) (λ q'. scope_end q' t)

  drops_from : (ℕ → List Bool) → Queue ℕ → List ℕ → Tally → List (Call ℕ × List Bool) → Bool
  unfolding drain after_op
  drops_from last q model t [] = drain (N + 1) last q t
  drops_from last q model t ((op, flags) ∷ ops) =
      let (expected, model') = Fifo.answer N op model in
      judge (call b N (enough flags) flags op q) expected
        (λ q'. drops_from last q' model' (after_op op expected t) ops)

  drops_new : (ℕ → List Bool) → Option (Queue ℕ) → List (Call ℕ × List Bool) → Bool
  unfolding drops_from
  drops_new last none ops = false
  drops_new last (some q) ops =
      drops_from last q [] (record { drops = 0; pushed_ok = 0; failed = 0 }) ops

  -- `check_drops`
  pub check_drops : (ℕ → List Bool) → List (Call ℕ × List Bool) → Bool
  unfolding drops_new
  check_drops last ops = drops_new last (new b N) ops

-- The payloads made are those dropped and those in the queue, before an operation and after it.
after_op_lem :
    (N : ℕ) (op : Call ℕ) (xs : List ℕ) (t : Tally)
    → t.drops + length xs ≡ t.pushed_ok + t.failed
    → (after_op op (Fifo.answer N op xs).0 t).drops + length (Fifo.answer N op xs).1
      ≡ (after_op op (Fifo.answer N op xs).0 t).pushed_ok
        + (after_op op (Fifo.answer N op xs).0 t).failed
unfolding after_op Fifo.answer Fifo.push Fifo.pop Fifo.force_push
after_op_lem N (Call.push v) xs t e = ground (arith, length-append xs (v ∷ []))
after_op_lem N (Call.force_push v) [] t e = ground arith
after_op_lem N (Call.force_push v) (x ∷ xs) t e = ground (arith, length-append xs (v ∷ []))
after_op_lem N Call.pop [] t e = e
after_op_lem N Call.pop (x ∷ xs) t e = omega arith
after_op_lem N Call.is_empty xs t e = e
after_op_lem N Call.is_full xs t e = e
after_op_lem N Call.len xs t e = e

module _ {b : Build} {N L : ℕ} (g : Geometry b N L) where
  scope_end_lem :
      {h : ℕ} {q : Queue ℕ} (t : Tally)
      → Holds g h [] q
      → t.drops + 0 ≡ t.pushed_ok + t.failed
      → scope_end b N q t ≡ true
  unfolding scope_end
  scope_end_lem t v e =
      let (q', runs, _) = drop_lem g v in
      ap
        (λ o. elim o [
          | none ↦ false
          | some (vs, q') ↦ (t.drops + length vs) == (t.pushed_ok + t.failed)
        ])
        runs
      ∙ eq→== _ _ e

  drain_lem :
      (fuel : ℕ) (flags : ℕ → List Bool) (xs : List ℕ) (t : Tally) {h : ℕ} {q : Queue ℕ}
      → Holds g h xs q
      → length xs < fuel
      → t.drops + length xs ≡ t.pushed_ok + t.failed
      → drain b N fuel flags q t ≡ true
  unfolding drain popped Fifo.answer Fifo.pop
  drain_lem zero flags xs t v lt e = absurd (omega arith)
  drain_lem (suc fuel) flags [] t v lt e =
      let (h', q', runs, v') =
        call_refines g (enough (flags fuel)) (flags fuel) Call.pop [] v (le_refl _) in
      ap
        (λ o.
          popped o (λ q'. drain b N fuel flags q' (record t { drops = t.drops + 1 }))
            (λ q'. scope_end b N q' t))
        runs
      ∙ scope_end_lem t v' e
  drain_lem (suc fuel) flags (x ∷ xs) t v lt e =
      let (h', q', runs, v') =
        call_refines g (enough (flags fuel)) (flags fuel) Call.pop (x ∷ xs) v (le_refl _) in
      ap
        (λ o.
          popped o (λ q'. drain b N fuel flags q' (record t { drops = t.drops + 1 }))
            (λ q'. scope_end b N q' t))
        runs
      ∙ drain_lem fuel flags xs (record t { drops = t.drops + 1 }) v' (omega arith) (omega arith)

  drops_from_lem :
      (last : ℕ → List Bool) (ops : List (Call ℕ × List Bool)) (xs : List ℕ) (t : Tally) {h : ℕ}
      {q : Queue ℕ}
      → Holds g h xs q
      → t.drops + length xs ≡ t.pushed_ok + t.failed
      → drops_from b N last q xs t ops ≡ true
  unfolding drops_from judge
  drops_from_lem last [] xs t v e = drain_lem (N + 1) last xs t v (omega (arith, v.fits)) e
  drops_from_lem last ((op, flags) ∷ ops) xs t v e =
      let (h', q', runs, v') = call_refines g (enough flags) flags op xs v (le_refl _) in
      let (r, ys) = Fifo.answer N op xs in
      ap (λ o. judge o r (λ q'. drops_from b N last q' ys (after_op op r t) ops)) runs
      ∙ ap₂ ◌&&◌ (same_reply r)
          (drops_from_lem last ops ys (after_op op r t) v' (after_op_lem N op xs t e))

-- For every capacity that `new` accepts, `check_drops` succeeds on every sequence of operations with
-- every choice of spurious failures: each operation returns and gives what the test expects, the loop
-- that empties the queue ends within N + 1 rounds, and in the end the destructor has run once for each
-- payload, whether it was pushed, replaced or given back.
pub check_drops_succeeds :
    {b : Build} (N : ℕ) (last : ℕ → List Bool) (ops : List (Call ℕ × List Bool))
    → IsTarget b
    → 0 < N
    → N ≤ isize_max b / 2
    → check_drops b N last ops ≡ true
unfolding check_drops drops_new
check_drops_succeeds {b} N last ops t pos small =
    let (lap, e, g) = new_accepts b t N pos small in
    ap (λ o. drops_new b N last o ops) e
    ∙ drops_from_lem g last ops [] (record { drops = 0; pushed_ok = 0; failed = 0 })
        (empty_queue-Holds g ℕ) (omega arith)
