-- ===== src/System/Invariant/Owns.antt =====
-- The slot that a thread has to itself, by its point and by the stages.
use nure_queue.Common.{
  ℕ, ◌%◌, ◌≡◌, ◌≢◌, sym, ap, ◌∙◌, ◌⊎◌, inl, inr, Option, none, some, ℕ_discrete,
}
use nure_queue.Common.Family.{update, update_self, update_ne}
use nure_queue.Target.{Build}
use nure_queue.Lap.{index_of}
use nure_queue.Thread.{
  Point, push_write, push_publish, ring_tail, ring_replace, ring_publish, pop_read, pop_publish,
}
use nure_queue.Lap.Geometry.{Geometry}
use nure_queue.Lap.Ticket.{position, index_of-position}
use nure_queue.System.Invariant.Defs.{Stage, owner}

module _ {A : Type 0} where
  -- The position of the slot that a thread is about to write, read, or hand on by its stamp.
  abbrev pub uses : Point A → Option ℕ
  uses (push_write c v tail) = some tail
  uses (push_publish c tail) = some tail
  uses (ring_tail v tail) = some tail
  uses (ring_replace v tail) = some tail
  uses (ring_publish old tail) = some tail
  uses (pop_read head) = some head
  uses (pop_publish msg head) = some head
  uses p = none

-- The index of that slot.
abbrev pub slot_of : {A : Type 0} → Build → ℕ → Point A → Option ℕ
slot_of b L p = elim (uses p) [ none ↦ none | some w ↦ some (index_of b L w) ]

-- Thread `i` has no slot to itself but that one.
abbrev pub Owns : (ℕ → Stage) → ℕ → Option ℕ → Type 0
Owns stage i o = (k : ℕ) → owner (stage k) ≡ some i → o ≡ some k

module _ (stage : ℕ → Stage) (i k : ℕ) (s : Stage) where
  pub Owns-gained : {k' : ℕ} → k' ≡ k → Owns stage i none → Owns (update stage k s) i (some k')
  Owns-gained e before j own = elim (ℕ_discrete k j) [
    | yes here ↦ ap some (e ∙ here)
    | no ne ↦ absurd (cc (before j (ap owner (sym (update_ne stage s k j ne)) ∙ own)))
  ]

  pub Owns-kept : {k' : ℕ} → k' ≡ k → Owns stage i (some k') → Owns (update stage k s) i (some k')
  Owns-kept e before j own = elim (ℕ_discrete k j) [
    | yes here ↦ ap some (e ∙ here)
    | no ne ↦ before j (ap owner (sym (update_ne stage s k j ne)) ∙ own)
  ]

  pub Owns-released :
      {k' : ℕ} → k' ≡ k → owner s ≡ none → Owns stage i (some k') → Owns (update stage k s) i none
  Owns-released e free before j own = elim (ℕ_discrete k j) [
    | yes here ↦ cc (own, ap owner (update_self stage s k j here), free)
    | no ne ↦ absurd (ne (cc (before j (ap owner (sym (update_ne stage s k j ne)) ∙ own), e)))
  ]

  -- A slot that another thread has to itself after the change was its own before.
  pub other_owner :
      (owner s ≡ none) ⊎ (owner s ≡ some i)
      → (m j : ℕ) → j ≢ i
      → owner (update stage k s m) ≡ some j
      → update stage k s m ≡ stage m
  other_owner whose m j ne own = elim (ℕ_discrete k m) [
    | yes here ↦
        let now = ap owner (update_self stage s k m here) in
        (elim whose [ inl e ↦ absurd (cc (own, now, e)) | inr e ↦ absurd (ne (cc (own, now, e))) ])
    | no other ↦ update_ne stage s k m other
  ]

-- The index of the word of a ticket.
pub word_index :
    {b : Build} {N L : ℕ} (g : Geometry b N L) (n : ℕ) {w : ℕ}
    → w ≡ position g n
    → index_of b L w ≡ n % N
word_index {b} {L = L} g n e = ap (index_of b L) e ∙ index_of-position g n
