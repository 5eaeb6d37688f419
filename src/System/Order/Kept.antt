-- ===== src/System/Order/Kept.antt =====
-- The clocks after each kind of access, by the slots that threads have to themselves.
use nure_queue.Common.{ℕ, ◌≤◌, ◌≡◌, ◌≢◌, sym, ap, subst, ◌∙◌, Option, none, some, ℕ_discrete, arith}
use nure_queue.System.Order.{Clocks, acquired, touched, given_out}

-- `S i` is the slot that thread `i` has to itself, and `Live i k` says that an exchange of thread `i`
-- would gain slot `k`.
pub record Clocked (S : ℕ → Option ℕ) (Live : ℕ → ℕ → Type 0) (c : Clocks) : Type 0 where
  pub known_le : (i k : ℕ) → c.known i k ≤ c.accesses k
  pub released_le : (k : ℕ) → c.released k ≤ c.accesses k
  pub owned : (i k : ℕ) → S i ≡ some k → c.known i k ≡ c.accesses k
  pub free : (k : ℕ) → ((i : ℕ) → S i ≢ some k) → c.released k ≡ c.accesses k
  pub live : (i k : ℕ) → Live i k → c.known i k ≡ c.accesses k

-- Thread `i` makes an access.
module _ {S S' : ℕ → Option ℕ} {Live Live' : ℕ → ℕ → Type 0} (i : ℕ)
    (others : (j : ℕ) → j ≢ i → S' j ≡ S j) (live_others : (j k : ℕ) → j ≢ i → Live' j k → Live j k)
    {c : Clocks} (v : Clocked S Live c) where
  free_before : (k : ℕ) → ((j : ℕ) → S' j ≢ some k) → S i ≢ some k → (j : ℕ) → S j ≢ some k
  free_before k none_has not_mine j = elim (ℕ_discrete j i) [
    | yes e ↦ λ is. not_mine (ap S (sym e) ∙ is)
    | no ne ↦ λ is. none_has j (others j ne ∙ is)
  ]

  pub other-Clocked : S' i ≡ S i → ((k : ℕ) → ¬ Live' i k) → Clocked S' Live' c
  other-Clocked same not_live = record {
    known_le = v.known_le;
    released_le = v.released_le;
    owned = λ j k has. elim (ℕ_discrete j i) [
      | yes e ↦ v.owned j k (ap S e ∙ sym same ∙ ap S' (sym e) ∙ has)
      | no ne ↦ v.owned j k (sym (others j ne) ∙ has)
    ];
    free = λ k none_has. v.free k (free_before k none_has (λ is. none_has i (same ∙ is)));
    live = λ j k l. elim (ℕ_discrete j i) [
      | yes e ↦ absurd (not_live k (subst (λ m. Live' m k) e l))
      | no ne ↦ v.live j k (live_others j k ne l)
    ];
  }

  pub gain-Clocked :
      (k : ℕ) → S i ≡ none → S' i ≡ some k → Live i k → ((k : ℕ) → ¬ Live' i k) → Clocked S' Live' c
  gain-Clocked k none_before now gains not_live = record {
    known_le = v.known_le;
    released_le = v.released_le;
    owned = λ j m has. elim (ℕ_discrete j i) [
      | yes e ↦
          let here : k ≡ m = cc (now, has, ap S' e) in
          ap (λ z. c.known z m) e ∙ subst (λ z. c.known i z ≡ c.accesses z) here (v.live i k gains)
      | no ne ↦ v.owned j m (sym (others j ne) ∙ has)
    ];
    free = λ m none_has. v.free m (free_before m none_has (λ is. cc (is, none_before)));
    live = λ j m l. elim (ℕ_discrete j i) [
      | yes e ↦ absurd (not_live m (subst (λ z. Live' z m) e l))
      | no ne ↦ v.live j m (live_others j m ne l)
    ];
  }

  pub load-Clocked :
      (k : ℕ)
      → S i ≡ none
      → S' i ≡ none
      → ((m : ℕ) → Live' i m → m ≡ k)
      → ((m : ℕ) → Live' i m → (j : ℕ) → S' j ≢ some m)
      → Clocked S' Live' (acquired k i c)
  load-Clocked k none_before none_after only is_free = record {
    known_le = λ j m. ground (arith, v.known_le j m, v.known_le i k, v.released_le k);
    released_le = v.released_le;
    owned = λ j m has. elim (ℕ_discrete j i) [
      | yes e ↦ cc (has, none_after, ap S' e)
      | no ne ↦ ground (arith, v.owned j m (sym (others j ne) ∙ has))
    ];
    free = λ m none_has. v.free m (free_before m none_has (λ is. cc (is, none_before)));
    live = λ j m l. elim (ℕ_discrete j i) [
      | yes e ↦
          let here = subst (λ z. Live' z m) e l in
          let at : m ≡ k = only m here in
          let unowned = subst (λ z. (n : ℕ) → S' n ≢ some z) at (is_free m here) in
          let given = v.free k (free_before k unowned (λ is. cc (is, none_before))) in
          ground (arith, given, v.known_le i k)
      | no ne ↦ ground (arith, v.live j m (live_others j m ne l))
    ];
  }

  pub touch-Clocked :
      (k : ℕ)
      → S i ≡ some k
      → S' i ≡ some k
      → ((m : ℕ) → ¬ Live' i m)
      → ((j : ℕ) → S j ≡ some k → j ≡ i)
      → ((j m : ℕ) → Live j m → S i ≢ some m)
      → Clocked S' Live' (touched k i c)
  touch-Clocked k before now not_live alone is_free = record {
    known_le = λ j m. ground (arith, v.known_le j m, v.known_le i k);
    released_le = λ m. ground (arith, v.released_le m);
    owned = λ j m has. elim (ℕ_discrete j i) [
      | yes e ↦ let here : k ≡ m = cc (now, has, ap S' e) in ground (arith, v.owned i k before)
      | no ne ↦ elim (ℕ_discrete k m) [
        | yes same ↦ absurd (ne (alone j (sym (others j ne) ∙ has ∙ ap some (sym same))))
        | no away ↦ ground (arith, v.owned j m (sym (others j ne) ∙ has))
      ]
    ];
    free = λ m none_has. elim (ℕ_discrete k m) [
      | yes same ↦ absurd (none_has i (now ∙ ap some same))
      | no away ↦ ground (arith, v.free m (free_before m none_has (λ is. away (cc (is, before)))))
    ];
    live = λ j m l. elim (ℕ_discrete j i) [
      | yes e ↦ absurd (not_live m (subst (λ z. Live' z m) e l))
      | no ne ↦ elim (ℕ_discrete k m) [
        | yes same ↦ absurd (is_free j m (live_others j m ne l) (before ∙ ap some same))
        | no away ↦ ground (arith, v.live j m (live_others j m ne l))
      ]
    ];
  }

  pub release-Clocked :
      (k : ℕ)
      → S i ≡ some k
      → S' i ≡ none
      → ((m : ℕ) → ¬ Live' i m)
      → Clocked S' Live' (given_out k i c)
  release-Clocked k before none_after not_live = record {
    known_le = v.known_le;
    released_le = λ m. ground (arith, v.released_le m, v.known_le i k);
    owned = λ j m has. elim (ℕ_discrete j i) [
      | yes e ↦ cc (has, none_after, ap S' e)
      | no ne ↦ v.owned j m (sym (others j ne) ∙ has)
    ];
    free = λ m none_has. elim (ℕ_discrete k m) [
      | yes e ↦ ground (arith, v.owned i k before)
      | no ne ↦ ground (arith, v.free m (free_before m none_has (λ is. ne (cc (is, before)))))
    ];
    live = λ j m l. elim (ℕ_discrete j i) [
      | yes e ↦ absurd (not_live m (subst (λ z. Live' z m) e l))
      | no ne ↦ v.live j m (live_others j m ne l)
    ];
  }
