-- ===== src/Thread/Step/Laws.antt =====
-- `step` at the points that go through a slot, where the slot is known.
use nure_queue.Common.{ℕ, Bool, ◌≡◌, ◌≢◌, refl, sym, ap, ◌∙◌, Option, none, some}
use nure_queue.Common.Family.{update, update_self, update_ne}
use nure_queue.Target.{Build, index_bits, wrapping_add}
use nure_queue.Lap.{index_of}
use nure_queue.Backoff.{Backoff}
use nure_queue.Slot.{Slot, write_value, read_value, replace_value, stamp_load, stamp_store}
use nure_queue.Queue.{Queue}
use nure_queue.Thread.{
  Closure, when_full, ring, Reply, pushed, option, Point, push_stamp, push_write, push_publish,
  ring_replace, ring_publish, pop_stamp, pop_read, pop_publish, done,
}
use nure_queue.Thread.Step.{
  step, put_back, with_slot, look, at_slot, peek_slot, after_push_stamp, after_pop_stamp,
}

-- The queue with one slot replaced.
abbrev pub put_slot {ℓ} : {A : Type ℓ} → Queue A → ℕ → Slot A → Queue A
put_slot q i s = record q { buffer = update q.buffer i (some s) }

module _ {ℓ} {A : Type ℓ} (q : Queue A) (i : ℕ) (s : Slot A) where
  pub put_slot_self : (put_slot q i s).buffer i ≡ some s
  put_slot_self = update_self q.buffer (some s) i i refl

  pub put_slot_ne : (j : ℕ) → j ≢ i → (put_slot q i s).buffer j ≡ q.buffer j
  put_slot_ne j ne = update_ne q.buffer (some s) i j (λ e. ne (sym e))

-- What `push_or_else` returns where it has published a value.
abbrev pub push_reply {ℓ} : {A : Type ℓ} → Closure → Reply A
push_reply c = elim c [ when_full ↦ pushed | ring ↦ option none ]

-- A thread at position `pos`, the slot `i` of that position, and its stamp and value.
module _ {ℓ} {A : Type ℓ} (b : Build) (N : ℕ) (f : Bool) (q : Queue A) (pos i n : ℕ) (o : Option A)
    (here : index_of b q.one_lap pos ≡ i)
    (slot : q.buffer i ≡ some (record { stamp = n; value = o })) where
  access-eq :
      (access : Slot A → Option (Slot A × Point A)) {s : Slot A} {p : Point A}
      → access (record { stamp = n; value = o }) ≡ some (s, p)
      → at_slot b N pos access q ≡ (put_slot q i s, p)
  unfolding at_slot
  access-eq access e =
      ap (λ j. with_slot b N q j access (q.buffer j)) here
      ∙ ap (with_slot b N q i access) slot
      ∙ ap (put_back b N q i) e

  peek-eq :
      (next : Slot A → Point A)
      → peek_slot b N pos next q ≡ (q, next (record { stamp = n; value = o }))
  unfolding peek_slot
  peek-eq next = ap (λ s. (q, look b N next s)) (ap q.buffer here ∙ slot)

  pub step-push_stamp :
      (c : Closure) (v : A) (k : Backoff)
      → step b N f q (push_stamp c v k pos) ≡ (q, after_push_stamp b N q c v k pos n)
  unfolding step peek_slot stamp_load
  step-push_stamp c v k = peek-eq (λ s. after_push_stamp b N q c v k pos (stamp_load s))

  pub step-push_write :
      (c : Closure) (v : A)
      → step b N f q (push_write c v pos)
        ≡ (put_slot q i (record { stamp = n; value = some v }), push_publish c pos)
  unfolding step at_slot write_value
  step-push_write c v = access-eq (λ s. some (write_value v s, push_publish c pos)) refl

  pub step-push_publish :
      (c : Closure)
      → step b N f q (push_publish c pos) ≡ (
        put_slot q i (record { stamp = wrapping_add (index_bits b) pos 1; value = o }),
        done (push_reply c),
      )
  unfolding step at_slot stamp_store
  step-push_publish c =
      access-eq (λ s. some (stamp_store (wrapping_add (index_bits b) pos 1) s, done (push_reply c)))
        refl

  pub step-ring_publish :
      (old : A)
      → step b N f q (ring_publish old pos) ≡ (
        put_slot q i (record { stamp = wrapping_add (index_bits b) pos 1; value = o }),
        done (option (some old)),
      )
  unfolding step at_slot stamp_store
  step-ring_publish old =
      access-eq
        (λ s. some (stamp_store (wrapping_add (index_bits b) pos 1) s, done (option (some old))))
        refl

  pub step-pop_stamp :
      (k : Backoff) → step b N f q (pop_stamp k pos) ≡ (q, after_pop_stamp {A = A} b N k pos n)
  unfolding step peek_slot stamp_load
  step-pop_stamp k = peek-eq (λ s. after_pop_stamp b N k pos (stamp_load s))

  pub step-pop_publish :
      (msg : A)
      → step b N f q (pop_publish msg pos) ≡ (
        put_slot q i (record { stamp = wrapping_add (index_bits b) pos q.one_lap; value = o }),
        done (option (some msg)),
      )
  unfolding step at_slot stamp_store
  step-pop_publish msg =
      access-eq
        (λ s.
          some
            (stamp_store (wrapping_add (index_bits b) pos q.one_lap) s, done (option (some msg))))
        refl

-- The same, where the slot holds a value.
module _ {ℓ} {A : Type ℓ} (b : Build) (N : ℕ) (f : Bool) (q : Queue A) (pos i n : ℕ) (old : A)
    (here : index_of b q.one_lap pos ≡ i)
    (slot : q.buffer i ≡ some (record { stamp = n; value = some old })) where
  pub step-ring_replace :
      (v : A)
      → step b N f q (ring_replace v pos)
        ≡ (put_slot q i (record { stamp = n; value = some v }), ring_publish old pos)
  unfolding step at_slot replace_value
  step-ring_replace v =
      access-eq b N f q pos i n (some old) here slot
        (λ s. elim (replace_value v s) [
          | none ↦ none
          | some (x, s') ↦ some (s', ring_publish x pos)
        ])
        refl

  pub step-pop_read :
      step b N f q (pop_read pos)
      ≡ (put_slot q i (record { stamp = n; value = none }), pop_publish old pos)
  unfolding step at_slot read_value
  step-pop_read =
      access-eq b N f q pos i n (some old) here slot
        (λ s. elim (read_value s) [ none ↦ none | some (x, s') ↦ some (s', pop_publish x pos) ])
        refl
