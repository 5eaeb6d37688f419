-- ===== src/Slot/Loom.antt =====
-- The methods of `Slot` in a build with the feature `loom`, in src/lib.rs. loom's `UnsafeCell` is not code
-- of the repository: it is a record of its operations, with what its documentation says of them as laws.
pub mod Same
use nure_queue.Common.{ℕ, ◌≡◌, Option, none, some}

-- `with` and `with_mut` call a closure with a pointer to the content. A closure is a function of the
-- content, for `with_mut` with the content that it leaves.
pub record UnsafeCell : Type 1 where
  pub Cell : Type 0 → Type 0
  pub with : (X B : Type 0) → Cell X → (X → B) → B
  pub with_mut : (X B : Type 0) → Cell X → (X → B × X) → B × Cell X

-- Where no access to the same cell runs at the same time, the closure is called once, with the content,
-- its result is that of the method, and the content is what it leaves.
pub record IsLawful (C : UnsafeCell) : Type 1 where
  pub content : (X : Type 0) → C.Cell X → X
  pub with_lem : (X B : Type 0) (c : C.Cell X) (f : X → B) → C.with X B c f ≡ f (content X c)
  pub with_mut-result :
      (X B : Type 0) (c : C.Cell X) (f : X → B × X) → (C.with_mut X B c f).0 ≡ (f (content X c)).0
  pub with_mut-content :
      (X B : Type 0) (c : C.Cell X) (f : X → B × X)
      → content X (C.with_mut X B c f).1 ≡ (f (content X c)).1

-- The stamp stands in no cell. The content of the cell is a `MaybeUninit<T>`: `none` while its bits are no
-- value.
pub record LoomSlot (C : UnsafeCell) (A : Type 0) : Type 0 where
  pub stamp : ℕ
  pub value : C.Cell (Option A)

module _ (C : UnsafeCell) {A : Type 0} where
  pub loom_write_value : A → LoomSlot C A → LoomSlot C A
  loom_write_value v s = record s {
    value = (C.with_mut (Option A) (Unit {0}) s.value (λ p. (tt, some v))).1;
  }

  -- A copy out of the cell: the bits stay. `none` is undefined behaviour, as below.
  pub loom_read_value : LoomSlot C A → Option A
  loom_read_value s = C.with (Option A) (Option A) s.value (λ p. p)

  -- The value whose destructor runs; its bits stay.
  pub loom_drop_value : LoomSlot C A → Option A × LoomSlot C A
  loom_drop_value s =
      let (dropped, c) = C.with_mut (Option A) (Option A) s.value (λ p. (p, p)) in
      (dropped, record s { value = c })

  pub loom_replace_value : A → LoomSlot C A → Option A × LoomSlot C A
  loom_replace_value v s =
      let (old, c) = C.with_mut (Option A) (Option A) s.value (λ p. (p, some v)) in
      (old, record s { value = c })

  pub loom_stamp_load : LoomSlot C A → ℕ
  loom_stamp_load s = s.stamp

  pub loom_stamp_store : ℕ → LoomSlot C A → LoomSlot C A
  loom_stamp_store n s = record s { stamp = n }
