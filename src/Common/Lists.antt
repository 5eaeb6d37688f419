-- ===== src/Common/Lists.antt =====
-- Lists measured and indexed by native numbers, under the library's names.
use Prim.Native.Nat.{ℕ, zero, suc, ◌+◌, ◌≤◌, ◌<◌}
use mathlib.Core.Path.{◌≡◌, refl, ap}
use mathlib.Core.List.{List, [], ◌∷◌, ◌++◌}
use mathlib.Core.Option.{Option, none, some}
use native.Mathlib.Omega.{arith}

module _ {ℓ} {A : Type ℓ} where
  abbrev pub length : List A → ℕ
  length [] = 0
  length (x ∷ xs) = suc (length xs)

  abbrev pub get_elem? : List A → ℕ → Option A
  get_elem? [] i = none
  get_elem? (x ∷ xs) zero = some x
  get_elem? (x ∷ xs) (suc i) = get_elem? xs i

  pub length-append : (xs ys : List A) → length (xs ++ ys) ≡ length xs + length ys
  length-append [] ys = omega arith
  length-append (x ∷ xs) ys = omega (arith, length-append xs ys)

  -- An index of the first list of an append.
  pub get_elem?-append_left :
      (xs ys : List A) (i : ℕ) → i < length xs → get_elem? (xs ++ ys) i ≡ get_elem? xs i
  get_elem?-append_left [] ys i h = absurd (omega arith)
  get_elem?-append_left (x ∷ xs) ys zero h = refl
  get_elem?-append_left (x ∷ xs) ys (suc i) h = get_elem?-append_left xs ys i (omega arith)

  -- The element behind the first list of an append.
  pub get_elem?-append_length :
      (xs : List A) (y : A) (ys : List A) → get_elem? (xs ++ (y ∷ ys)) (length xs) ≡ some y
  get_elem?-append_length [] y ys = refl
  get_elem?-append_length (x ∷ xs) y ys = get_elem?-append_length xs y ys

  -- What stands behind the first list of such an append is that element alone.
  pub get_elem?-append_last :
      (xs : List A) (y : A) (i : ℕ) (z : A)
      → length xs ≤ i
      → get_elem? (xs ++ (y ∷ [])) i ≡ some z
      → (i ≡ length xs) × (y ≡ z)
  get_elem?-append_last [] y zero z h e = (refl, cc)
  get_elem?-append_last [] y (suc i) z h e = cc
  get_elem?-append_last (x ∷ xs) y zero z h e = absurd (omega arith)
  get_elem?-append_last (x ∷ xs) y (suc i) z h e =
      let (p, r) = get_elem?-append_last xs y i z (omega arith) e in (ap suc p, r)

  pub get_elem?-lt : (xs : List A) (i : ℕ) (z : A) → get_elem? xs i ≡ some z → i < length xs
  get_elem?-lt [] i z e = cc
  get_elem?-lt (x ∷ xs) zero z e = omega arith
  get_elem?-lt (x ∷ xs) (suc i) z e = omega (arith, get_elem?-lt xs i z e)
