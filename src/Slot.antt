-- ===== src/Slot.antt =====
-- `Slot` of src/lib.rs: a stamp, and a payload that may be uninitialized. Loom has the variants
-- of its methods in a loom build.
pub mod Loom
use nure_queue.Common.{ℕ, Option, none, some}

-- `value` is `none` while the `MaybeUninit` holds no value that the slot owns: before the first write,
-- and after the value has been moved out.
pub record Slot {ℓ} (A : Type ℓ) : Type ℓ where
  pub stamp : ℕ
  pub value : Option A

module _ {ℓ} {A : Type ℓ} where
  -- A write over a value forgets it: `MaybeUninit` runs no destructor.
  unfoldable pub write_value : A → Slot A → Slot A
  write_value v s = record s { value = some v }

  -- The methods that assume an initialized payload: `none` is undefined behaviour. The value is moved
  -- out.
  unfoldable pub read_value : Slot A → Option (A × Slot A)
  read_value s = elim s.value [ none ↦ none | some v ↦ some (v, record s { value = none }) ]

  -- The value whose destructor runs.
  unfoldable pub drop_value : Slot A → Option (A × Slot A)
  drop_value s = elim s.value [ none ↦ none | some v ↦ some (v, record s { value = none }) ]

  unfoldable pub replace_value : A → Slot A → Option (A × Slot A)
  replace_value v s = elim s.value [
    | none ↦ none
    | some old ↦ some (old, record s { value = some v })
  ]

  unfoldable pub stamp_load : Slot A → ℕ
  stamp_load s = s.stamp

  unfoldable pub stamp_store : ℕ → Slot A → Slot A
  stamp_store n s = record s { stamp = n }
