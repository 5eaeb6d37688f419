-- ===== src/Common/Family.antt =====
-- Families `ℕ → A`: update at one index.
use Prim.Native.Nat.{ℕ}
use mathlib.Core.Path.{◌≡◌}
use mathlib.Core.Logic.{◌≢◌, ite}
use native.Mathlib.Decide.{ℕ_discrete}
use native.Mathlib.Omega.{arith}

abbrev pub update {ℓ} : {A : Type ℓ} → (ℕ → A) → ℕ → A → ℕ → A
update f i a j = ite (ℕ_discrete i j) a (f j)

module _ {ℓ} {A : Type ℓ} (f : ℕ → A) (a : A) where
  pub update_self : (i j : ℕ) → i ≡ j → update f i a j ≡ a
  update_self i j h = ground arith

  pub update_ne : (i j : ℕ) → i ≢ j → update f i a j ≡ f j
  update_ne i j h = ground arith
