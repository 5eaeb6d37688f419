-- ===== src/Solo/Run.antt =====
-- How a run goes on: one access, or none after the method has returned.
use nure_queue.Common.{
  ℕ, zero, suc, ◌+◌, ◌*◌, ◌≤◌, ◌≡◌, refl, ap, ◌∙◌, Bool, true, List, [], ◌∷◌, some, length, arith,
}
use nure_queue.Target.{Build}
use nure_queue.Lap.Geometry.{Geometry}
use nure_queue.Queue.{Queue}
use nure_queue.Thread.{Reply, Point, done}
use nure_queue.Thread.Step.{step}
use nure_queue.Solo.{next_flag, later_flags, run}
use nure_queue.Solo.Holds.{Holds}

pub later_flags-le : (flags : List Bool) → length (later_flags flags) ≤ length flags
later_flags-le [] = omega arith
later_flags-le (f ∷ fs) = omega arith

-- An access that fails spuriously uses up a flag.
pub length-later_flags :
    (flags : List Bool) → next_flag flags ≡ true → length flags ≡ suc (length (later_flags flags))
length-later_flags [] h = cc
length-later_flags (f ∷ fs) h = refl

-- Accesses that are enough for a method that is called alone.
abbrev pub enough : List Bool → ℕ
enough flags = 3 * length flags + 8

module _ {ℓ} {A : Type ℓ} {b : Build} {N L : ℕ} (g : Geometry b N L) where
  -- A run from point `p` ends with the reply `r`, and with the values `ys` in the queue.
  abbrev pub Gives : ℕ → List Bool → Queue A → Point A → Reply A → List A → Type ℓ
  Gives fuel flags q p r ys =
      (h : ℕ) × (q' : Queue A) × (run b N fuel flags q p ≡ some (r, q')) × Holds g h ys q'

  pub Gives-step :
      (fuel : ℕ) (flags : List Bool) (q : Queue A) (p : Point A) {q' : Queue A} {p' : Point A}
      (r : Reply A) (ys : List A)
      → step b N (next_flag flags) q p ≡ (q', p')
      → Gives fuel (later_flags flags) q' p' r ys
      → Gives (suc fuel) flags q p r ys
  unfolding run
  Gives-step fuel flags q p r ys e (h, q', runs, v) =
      (h, q', ap (λ (s : Queue A × Point A). run b N fuel (later_flags flags) s.0 s.1) e ∙ runs, v)

  pub run-done :
      (fuel : ℕ) (flags : List Bool) (q : Queue A) (r : Reply A)
      → run b N fuel flags q (done r) ≡ some (r, q)
  unfolding run step
  run-done zero flags q r = refl
  run-done (suc fuel) flags q r = run-done fuel (later_flags flags) q r

  pub Gives-done :
      (fuel : ℕ) (flags : List Bool) (h : ℕ) (q : Queue A) (r : Reply A) (ys : List A)
      → Holds g h ys q
      → Gives fuel flags q (done r) r ys
  Gives-done fuel flags h q r ys v = (h, q, run-done fuel flags q r, v)
