-- ===== src/Slot/Loom/Same.antt =====
-- Accesses to a slot give the same in both builds, for as long as the default build has no undefined
-- behaviour.
use nure_queue.Common.{ℕ, ◌≡◌, refl, sym, ap, subst, ◌∙◌, List, [], ◌∷◌, Option, none, some}
use nure_queue.Slot
use nure_queue.Slot.{Slot}
use nure_queue.Slot.Loom.{
  UnsafeCell, IsLawful, LoomSlot, loom_write_value, loom_read_value, loom_drop_value,
  loom_replace_value, loom_stamp_load, loom_stamp_store,
}

-- One call of a method of `Slot`, and its result.
pub data Access (A : Type 0) : Type 0 where
  write replace : A → Access A
  read drop load : Access A
  store : ℕ → Access A

pub data Result (A : Type 0) : Type 0 where
  nothing : Result A
  value : A → Result A
  stamp : ℕ → Result A

-- A result, and then those of the calls behind it.
then_all :
    {A S : Type 0}
    → Option (Result A × S)
    → (S → Option (List (Result A) × S))
    → Option (List (Result A) × S)
then_all none next = none
then_all (some (r, s)) next = elim (next s) [ none ↦ none | some (rs, t) ↦ some (r ∷ rs, t) ]

-- A sequence that comes to its end.
rest-eq_some :
    {A S : Type 0} (r : Result A) (o : Option (List (Result A) × S)) {rs : List (Result A)} {t : S}
    → ◌≡◌ {A = Option (List (Result A) × S)}
        (elim o [ none ↦ none | some (rest, u) ↦ some (r ∷ rest, u) ])
        (some (rs, t))
    → (rest : List (Result A)) × (o ≡ some (rest, t)) × (rs ≡ r ∷ rest)
rest-eq_some r none e = cc
rest-eq_some r (some (rest, u)) e = (rest, cc e, cc e)

then_all-eq_some :
    {A S : Type 0} (o : Option (Result A × S)) (next : S → Option (List (Result A) × S))
    {rs : List (Result A)} {t : S}
    → then_all o next ≡ some (rs, t)
    → (r : Result A) × (s : S) × (rest : List (Result A)) × (o ≡ some (r, s))
      × (next s ≡ some (rest, t))
      × (rs ≡ r ∷ rest)
unfolding then_all
then_all-eq_some none next e = cc
then_all-eq_some (some (r, s)) next e =
    let (rest, is, all) = rest-eq_some r (next s) e in (r, s, rest, refl, is, all)

module _ {A : Type 0} where
  -- `none` is undefined behaviour.
  taken : Option (A × Slot A) → Option (Result A × Slot A)
  taken none = none
  taken (some (v, s)) = some (value v, s)

  unfoldable pub access : Access A → Slot A → Option (Result A × Slot A)
  unfolding taken
  access (write v) s = some (nothing, Slot.write_value v s)
  access (replace v) s = taken (Slot.replace_value v s)
  access read s = taken (Slot.read_value s)
  access drop s = taken (Slot.drop_value s)
  access load s = some (stamp (Slot.stamp_load s), s)
  access (store n) s = some (nothing, Slot.stamp_store n s)

  unfoldable pub accesses : List (Access A) → Slot A → Option (List (Result A) × Slot A)
  unfolding then_all access
  accesses [] s = some ([], s)
  accesses (a ∷ rest) s = then_all (access a s) (accesses rest)

module _ (C : UnsafeCell) {A : Type 0} where
  copied : Option A → LoomSlot C A → Option (Result A × LoomSlot C A)
  copied none s = none
  copied (some v) s = some (value v, s)

  -- The same accesses in a loom build.
  loom_access : Access A → LoomSlot C A → Option (Result A × LoomSlot C A)
  unfolding copied
  loom_access (write v) s = some (nothing, loom_write_value C v s)
  loom_access (replace v) s = let (old, s') = loom_replace_value C v s in copied old s'
  loom_access read s = copied (loom_read_value C s) s
  loom_access drop s = let (dropped, s') = loom_drop_value C s in copied dropped s'
  loom_access load s = some (stamp (loom_stamp_load C s), s)
  loom_access (store n) s = some (nothing, loom_stamp_store C n s)

  pub loom_accesses : List (Access A) → LoomSlot C A → Option (List (Result A) × LoomSlot C A)
  loom_accesses [] s = some ([], s)
  loom_accesses (a ∷ rest) s = then_all (loom_access a s) (loom_accesses rest)

module _ {C : UnsafeCell} (W : IsLawful C) {A : Type 0} where
  -- The loom slot has the stamp, and the value if there is one; where the other has lost its value, the
  -- bits may be any.
  abbrev pub Same : Slot A → LoomSlot C A → Type 0
  Same s l =
      (l.stamp ≡ s.stamp) × ((v : A) → s.value ≡ some v → W.content (Option A) l.value ≡ some v)

  agree :
      {o : Option (Result A × LoomSlot C A)} {x r : Result A} {s s' : Slot A} (l : LoomSlot C A)
      → ◌≡◌ {A = Option (Result A × Slot A)} (some (x, s)) (some (r, s'))
      → o ≡ some (x, l)
      → Same s l
      → (l' : LoomSlot C A) × (o ≡ some (r, l')) × Same s' l'
  agree {s = s} {s' = s'} l e runs same =
      (l, cc (runs, e), subst (λ z. Same z l) (let q : s ≡ s' = cc e in q) same)

  access-Same :
      (a : Access A) (n : ℕ) (o : Option A) (l : LoomSlot C A) {r : Result A} {s' : Slot A}
      → Same (record { stamp = n; value = o }) l
      → access a (record { stamp = n; value = o }) ≡ some (r, s')
      → (l' : LoomSlot C A) × (loom_access C a l ≡ some (r, l')) × Same s' l'
  unfolding access taken loom_access copied Slot.write_value Slot.read_value Slot.drop_value
      Slot.replace_value Slot.stamp_load Slot.stamp_store loom_write_value loom_read_value
      loom_drop_value loom_replace_value loom_stamp_load loom_stamp_store
  access-Same (write v) n o l same e =
      agree (loom_write_value C v l) e refl
        (same.0, λ w is. W.with_mut-content (Option A) (Unit {0}) l.value (λ p. (tt, some v)) ∙ is)
  access-Same (replace v) n none l same e = cc
  access-Same (replace v) n (some w) l same e =
      agree (loom_replace_value C v l).1 e
        (ap (λ p. copied C p (loom_replace_value C v l).1)
          (W.with_mut-result (Option A) (Option A) l.value (λ p. (p, some v)) ∙ same.1 w refl))
        (same.0, λ u is. W.with_mut-content (Option A) (Option A) l.value (λ p. (p, some v)) ∙ is)
  access-Same read n none l same e = cc
  access-Same read n (some w) l same e =
      agree l e
        (ap (λ p. copied C p l) (W.with_lem (Option A) (Option A) l.value (λ p. p) ∙ same.1 w refl))
        (same.0, λ u is. cc is)
  access-Same drop n none l same e = cc
  access-Same drop n (some w) l same e =
      agree (loom_drop_value C l).1 e
        (ap (λ p. copied C p (loom_drop_value C l).1)
          (W.with_mut-result (Option A) (Option A) l.value (λ p. (p, p)) ∙ same.1 w refl))
        (same.0, λ u is. cc is)
  access-Same load n o l same e = agree l e (ap (λ m. some (stamp m, l)) same.0) same
  access-Same (store m) n o l same e = agree (loom_stamp_store C m l) e refl (refl, same.1)

  -- For any implementation of loom's cell that keeps its laws: a sequence of calls of the methods of one
  -- slot that has no undefined behaviour in the default build has none in a loom build, and each call
  -- returns the same. The two slots begin with the same stamp, and the loom slot holds the value of the
  -- other, if that has one.
  pub loom_agrees :
      (calls : List (Access A)) (s : Slot A) (l : LoomSlot C A) (rs : List (Result A)) (t : Slot A)
      → Same s l
      → accesses calls s ≡ some (rs, t)
      → (m : LoomSlot C A) × (loom_accesses C calls l ≡ some (rs, m)) × Same t m
  unfolding accesses loom_accesses then_all
  loom_agrees [] s l rs t same e = (l, cc e, subst (λ z. Same z l) (let q : s ≡ t = cc e in q) same)
  loom_agrees (a ∷ calls) s l rs t same e =
      let (r, s', rest, one, others, all) = then_all-eq_some (access a s) (accesses calls) e in
      let (l', runs, same') = access-Same a s.stamp s.value l same one in
      let (m, more, end) = loom_agrees calls s' l' rest t same' others in
      (
        m,
        ap (λ o. then_all o (loom_accesses C calls)) runs
            ∙ ap (λ o. elim o [ none ↦ none | some (z, u) ↦ some (r ∷ z, u) ]) more
            ∙ ap (λ z. some (z, m)) (sym all),
        end,
      )
