-- ===== src/Differential/Fuzz.antt =====
-- fuzz/fuzz_targets/queue_differential.rs: any sequence of operations on a queue of bytes with 16 slots,
-- and on a `VecDeque`. Bytes are numbers; beside each operation stand the flags of its spurious failures.
use nure_queue.Common.{
  ℕ, zero, suc, ◌-◌, ◌/◌, ◌≤◌, ◌≡◌, refl, ap, ap₂, ◌∙◌, Bool, true, false, ◌&&◌, List, [], ◌∷◌,
  ◌++◌, Option, none, some, length, ltb, ◌==◌, if◌then◌else◌, arith,
}
use native.Mathlib.Nat.{le_refl}
use nure_queue.Target.{Build, IsTarget, isize_max}
use native.Mathlib.Nat.{pow-le-pow_right}
use nure_queue.Lap.Geometry.{Geometry}
use nure_queue.Queue.{Queue, new}
use nure_queue.Queue.New.{new_accepts}
use nure_queue.Thread.{Reply, pushed, rejected, option, Call}
use nure_queue.Fifo
use nure_queue.Fifo.{front, behind}
use nure_queue.Solo.{call}
use nure_queue.Solo.Run.{enough}
use nure_queue.Solo.Holds.{Holds, empty_queue-Holds}
use nure_queue.Solo.Refine.{call_refines}
use nure_queue.Differential.{judge}
use nure_queue.Differential.Passes.{same_reply}

-- `CAP`
abbrev cap_const : ℕ
cap_const = 16

pub data Op : Type 0 where
  push : ℕ → Op
  pop : Op
  force_push : ℕ → Op

-- The method that an operation calls.
method : Op → Call ℕ
method (push v) = Call.push v
method pop = Call.pop
method (force_push v) = Call.force_push v

-- The reply that the target asserts, and its model after the operation.
expect : Op → List ℕ → Reply ℕ × List ℕ
expect (push v) model =
    if ltb (length model) cap_const then (pushed, model ++ (v ∷ [])) else (rejected v, model)
expect pop model = (option (front model), behind model)
expect (force_push v) model =
    if length model == cap_const
    then (option (front model), behind model ++ (v ∷ []))
    else (option none, model ++ (v ∷ []))

-- `ops.iter().take(n)`
take_ops : ℕ → List (Op × List Bool) → List (Op × List Bool)
take_ops zero ops = []
take_ops (suc n) [] = []
take_ops (suc n) (op ∷ ops) = op ∷ take_ops n ops

module _ (b : Build) where
  -- The loop over the operations.
  fuzz_loop : Queue ℕ → List ℕ → List (Op × List Bool) → Bool
  unfolding judge method expect
  fuzz_loop q model [] = true
  fuzz_loop q model ((op, flags) ∷ ops) =
      let (expected, model') = expect op model in
      judge (call b cap_const (enough flags) flags (method op) q) expected
        (λ q'. fuzz_loop q' model' ops)

  fuzz_new : Option (Queue ℕ) → List (Op × List Bool) → Bool
  unfolding fuzz_loop
  fuzz_new none ops = false
  fuzz_new (some q) ops = fuzz_loop q [] ops

  -- `fuzz_target!`: at most 4096 operations are run.
  pub fuzz_target : List (Op × List Bool) → Bool
  unfolding fuzz_new take_ops
  fuzz_target ops = fuzz_new (new b cap_const) (take_ops 4096 ops)

-- What the target expects is what the bounded queue answers.
expect-answer : (op : Op) (xs : List ℕ) → expect op xs ≡ Fifo.answer cap_const (method op) xs
unfolding expect method Fifo.answer Fifo.push Fifo.pop Fifo.force_push
expect-answer (push v) xs = refl
expect-answer pop xs = refl
expect-answer (force_push v) xs = refl

module _ {b : Build} {L : ℕ} (g : Geometry b cap_const L) where
  fuzz_loop_lem :
      (ops : List (Op × List Bool)) (xs : List ℕ) {h : ℕ} {q : Queue ℕ}
      → Holds g h xs q
      → fuzz_loop b q xs ops ≡ true
  unfolding fuzz_loop
  fuzz_loop_lem [] xs v = refl
  fuzz_loop_lem ((op, flags) ∷ ops) xs {q = q} v =
      let (h', q', runs, v') = call_refines g (enough flags) flags (method op) xs v (le_refl _) in
      let (r, ys) = Fifo.answer cap_const (method op) xs in
      ap
        (λ (e : Reply ℕ × List ℕ).
          judge (call b cap_const (enough flags) flags (method op) q) e.0
            (λ q'. fuzz_loop b q' e.1 ops))
        (expect-answer op xs)
      ∙ ap (λ o. judge o r (λ q'. fuzz_loop b q' ys ops)) runs
      ∙ ap₂ ◌&&◌ (same_reply r) (fuzz_loop_lem ops ys v')

-- Every target has words for this capacity.
cap_accepted : {b : Build} → IsTarget b → cap_const ≤ isize_max b / 2
unfolding isize_max
cap_accepted {b} t =
    let wide : 15 ≤ b.pointer_width - 1 = omega (arith, t.narrowest) in
    omega (arith, pow-le-pow_right {n = 2} (omega arith) wide)

-- On every target, and for every sequence of operations with every choice of spurious failures, the fuzz
-- target ends with no failed assertion: `new` accepts its capacity, and each of the first 4096 operations
-- returns what its `VecDeque` leads it to expect.
pub fuzz_target_succeeds :
    {b : Build} (ops : List (Op × List Bool)) → IsTarget b → fuzz_target b ops ≡ true
unfolding fuzz_target fuzz_new
fuzz_target_succeeds {b} ops t =
    let (lap, e, g) = new_accepts b t cap_const (omega arith) (cap_accepted t) in
    ap (λ o. fuzz_new b o (take_ops 4096 ops)) e
    ∙ fuzz_loop_lem g (take_ops 4096 ops) [] (empty_queue-Holds g ℕ)
