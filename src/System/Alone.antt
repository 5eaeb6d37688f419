-- ===== src/System/Alone.antt =====
-- A thread that makes accesses while the others make none.
pub mod Own
pub mod Head
pub mod Turn
pub mod Returns
use nure_queue.Common.{
  ℕ, zero, suc, ◌+◌, ◌*◌, ◌≤◌, ◌<◌, ◌≡◌, refl, ap, ◌∙◌, subst, Bool, true, List, some,
}
use nure_queue.Target.{Build}
use nure_queue.Lap.Geometry.{Geometry}
use nure_queue.Queue.{Queue}
use nure_queue.Thread.{Reply, Point, done}
use nure_queue.Thread.Step.{step}
use nure_queue.Solo.{next_flag, later_flags, run}
use nure_queue.Solo.Run.{run-done, Gives}
use nure_queue.System.{relies, next_age}
use nure_queue.System.Invariant.Defs.{Ghost, Memory, Local}
use nure_queue.System.Invariant.Accesses.{safe-step}

module _ {A : Type 0} {b : Build} {N L : ℕ} (g : Geometry b N L) where
  -- A run from point `p` ends.
  abbrev pub Ends : ℕ → List Bool → Queue A → Point A → Type 0
  Ends fuel flags q p = (r : Reply A) × (q' : Queue A) × (run b N fuel flags q p ≡ some (r, q'))

  pub Ends-step :
      (fuel : ℕ) (flags : List Bool) (q : Queue A) (p : Point A) {q' : Queue A} {p' : Point A}
      → step b N (next_flag flags) q p ≡ (q', p')
      → Ends fuel (later_flags flags) q' p'
      → Ends (suc fuel) flags q p
  unfolding run
  Ends-step fuel flags q p e (r, q', runs) =
      (r, q', ap (λ (s : Queue A × Point A). run b N fuel (later_flags flags) s.0 s.1) e ∙ runs)

  pub Ends-done :
      (fuel : ℕ) (flags : List Bool) (q : Queue A) (r : Reply A) → Ends fuel flags q (done r)
  Ends-done fuel flags q r = (r, q, run-done g fuel flags q r)

  pub Gives-Ends :
      (fuel : ℕ) (flags : List Bool) (q : Queue A) (p : Point A) {r : Reply A} {ys : List A}
      → Gives g fuel flags q p r ys
      → Ends fuel flags q p
  Gives-Ends fuel flags q p {r} (h, q', runs, _) = (r, q', runs)

  -- The memory and the thread `i`, which loaded its position `a` accesses ago.
  abbrev pub Safe : ℕ → ℕ → Queue A → Point A → Type 0
  Safe i a q p = (x : Ghost A) × Memory g x q × Local g x a i p

  pub Safe-step :
      (patience i : ℕ) (f : Bool) (a : ℕ) (q : Queue A) (p : Point A) {q' : Queue A} {p' : Point A}
      → patience + 3 * N ≤ N * g.laps
      → (relies p ≡ true → a < patience)
      → step b N f q p ≡ (q', p')
      → Safe i a q p
      → Safe i (next_age a p') q' p'
  Safe-step patience i f a q p far soon e (x, v, l) =
      let (y, after, now, _, _) = safe-step g i f a patience p far v soon l in
      subst (λ (u : Queue A × Point A). Safe i (next_age a u.1) u.0 u.1) e (y, after, now)
