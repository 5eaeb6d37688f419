-- ===== src/System/Invariant/Tickets.antt =====
-- A push that takes the next ticket of the tail, and a pop that takes that of the head.
use nure_queue.Atomic.{Status, Act}
use nure_queue.System.Invariant.Contents.{length-contents, contents_put}
use nure_queue.System.Invariant.Defs.{contents}
use nure_queue.Common.{
  List, [], ◌∷◌, ◌++◌, length, ℕ, ◌+◌, ◌%◌, ◌<◌, ◌≡◌, ◌≢◌, refl, sym, ap, ap₂, subst, ◌∙◌, inl, inr,
  some, arith,
}
use nure_queue.Common.Family.{update, update_self, update_ne}
use nure_queue.Target.{Build}
use nure_queue.Lap.Geometry.{Geometry}
use nure_queue.Lap.Ticket.{position}
use nure_queue.Queue.{Queue}
use nure_queue.System.Invariant.Defs.{
  Stage, full, Ghost, owner, ticket_of, Bounds, stamp_of, content_of, Memory,
}
use nure_queue.System.Invariant.Frame.{MayChange, Advance}
use nure_queue.System.Invariant.Owns.{other_owner}
use nure_queue.Common.{inr}
use nure_queue.System.Invariant.Defs.{owner}
use nure_queue.System.Invariant.Change.{Change-Memory}
use nure_queue.System.Invariant.Moves.{slot-At, one_stage}
use nure_queue.Atomic.{Status, Act}
use nure_queue.System.Invariant.Contents.{length-contents, contents_take}
use nure_queue.System.Invariant.Defs.{contents, values_from}
use nure_queue.Common.{
  List, [], ◌∷◌, length, ◌-◌, ℕ, ◌+◌, ◌%◌, ◌<◌, ◌≡◌, refl, sym, ap, ap₂, subst, ◌∙◌, inl, inr, some,
  arith,
}
use nure_queue.Common.Family.{update, update_self, update_ne}
use nure_queue.Target.{Build}
use nure_queue.Lap.Geometry.{Geometry}
use nure_queue.Lap.Ticket.{position}
use nure_queue.Queue.{Queue}
use nure_queue.System.Invariant.Defs.{
  Stage, full, Ghost, ticket_of, Bounds, stamp_of, content_of, Memory, At,
}
use nure_queue.System.Invariant.Frame.{MayChange, Advance}
use nure_queue.System.Invariant.Change.{Change-Memory}
use nure_queue.System.Invariant.Moves.{slot-At, one_stage}

module _ {A : Type 0} {b : Build} {N L : ℕ} (g : Geometry b N L) (i : ℕ) {x : Ghost A} {q : Queue A}
    (v : Memory g x q) where
  -- Ticket `puts` is taken, for the value `w`: its slot goes from `s` to `s'`, and the memory keeps it.
  abbrev pub taken : ℕ → Stage → A → Status A → Ghost A
  taken k s' w u = record {
    takes = x.takes;
    puts = x.puts + 1;
    stage = update x.stage k s';
    value = update x.value x.puts (some w);
    status = update x.status i u;
  }

  pub old_value : (w : A) (n : ℕ) → n < x.puts → update x.value x.puts (some w) n ≡ x.value n
  old_value w n lt = update_ne x.value (some w) x.puts n (omega arith)

  pub take_put :
      (k : ℕ) (s s' : Stage) (w : A) (tail : ℕ) (u' u : Status A)
      → k < N
      → x.puts % N ≡ k
      → x.puts < x.takes + N
      → x.stage k ≡ s
      → ((j : ℕ) → j ≢ i → owner s ≢ some j)
      → s ≢ full x.takes
      → ticket_of s' % N ≡ k
      → Bounds N x.takes (x.puts + 1) s'
      → stamp_of g s' ≡ stamp_of g s
      → content_of N (update x.value x.puts (some w)) s' ≡ content_of N x.value s
      → tail ≡ position g (x.puts + 1)
      → x.status i ≡ u'
      → (length (contents x) < N → Act N (contents x) u' (contents x ++ (w ∷ [])) u)
      → owner s' ≡ some i
      → Memory g (taken k s' w u) (record q { tail = tail })
        × Advance N i x (taken k s' w u)
        × (update x.stage k s' k ≡ s')
        × (update x.value x.puts (some w) x.puts ≡ some w)
        × (update x.status i u i ≡ u)
  take_put k s s' w tail u' u lt slot room was mine other index bounds st co e at act whose = (
    Change-Memory g v (record {
      takes = inl refl;
      puts = inr (refl, slot);
      lap = refl;
      head = v.head;
      tail = e;
      ordered = omega (arith, v.ordered);
      within = omega arith;
      values = old_value w;
      known = λ h. (w, update_self x.value (some w) x.puts x.puts refl);
      stages = λ j ne. update_ne x.stage s' k j (λ e. ne (sym e));
      buffer = λ j ne. refl;
      here = record {
        index = ap (λ t. ticket_of t % N) now ∙ index;
        bounds = subst (Bounds N x.takes (x.puts + 1)) (sym now) bounds;
        slot =
            (v.slots k lt).slot
            ∙ ap₂ (λ m c. some (record { stamp = m; value = c }))
                (ap (stamp_of g) was ∙ sym st ∙ ap (stamp_of g) (sym now))
                (ap (content_of N x.value) was
                  ∙ sym co
                  ∙ ap (content_of N (update x.value x.puts (some w))) (sym now));
      };
    }),
    record {
      keeps = record {
        puts_up = omega arith;
        takes_up = omega arith;
        once = omega arith;
        values = old_value w;
        stages = one_stage i k s' x _ (
            subst (MayChange i x (taken k s' w u)) (sym was)
              (record { mine = mine; taken = λ _. omega arith; given = λ e. absurd (other e) }));
        others = λ j ne. update_ne x.status u i j (λ e. ne (sym e));
        owners = other_owner x.stage i k s' (inr whose);
      };
      acts =
          subst (λ ys. Act N (contents x) (x.status i) ys (update x.status i u i))
            (sym (
              contents_put x v.known v.ordered (taken k s' w u) w refl refl (old_value w)
                (update_self x.value (some w) x.puts x.puts refl)))
            (subst (λ z. Act N (contents x) (x.status i) (contents x ++ (w ∷ [])) z)
              (sym (update_self x.status u i i refl))
              (subst (λ z. Act N (contents x) z (contents x ++ (w ∷ [])) u) (sym at)
                (act (omega (arith, length-contents x v.known v.ordered, v.ordered)))));
    },
    now,
    update_self x.value (some w) x.puts x.puts refl,
    update_self x.status u i i refl,
  )
    where
      now : update x.stage k s' k ≡ s'
      now = update_self x.stage s' k k refl

module _ {A : Type 0} {b : Build} {N L : ℕ} (g : Geometry b N L) (i : ℕ) {x : Ghost A} {q : Queue A}
    (v : Memory g x q) where
  -- Ticket `takes` is taken, and its slot goes from `full` to `s'`.
  abbrev pub given : Stage → Status A → Ghost A
  given s' u = record x {
    takes = x.takes + 1;
    stage = update x.stage (x.takes % N) s';
    status = update x.status i u;
  }

  pub take_get :
      (s' : Stage) (head : ℕ) (u' u : Status A)
      → x.takes < x.puts
      → At g x x.takes (full x.takes)
      → ticket_of s' ≡ x.takes
      → Bounds N (x.takes + 1) x.puts s'
      → stamp_of g s' ≡ position g x.takes + 1
      → content_of N x.value s' ≡ x.value x.takes
      → head ≡ position g (x.takes + 1)
      → x.status i ≡ u'
      → ((old : A) (ys : List A)
          → x.value x.takes ≡ some old
          → length (old ∷ ys) ≡ x.puts - x.takes
          → Act N (old ∷ ys) u' ys u)
      → owner s' ≡ some i
      → Memory g (given s' u) (record q { head = head })
        × Advance N i x (given s' u)
        × At g (given s' u) x.takes s'
        × (update x.status i u i ≡ u)
  take_get s' head u' u some_left was index bounds st co e at act whose = (
    Change-Memory g v (record {
      takes = inr (refl, refl);
      puts = inl refl;
      lap = refl;
      head = e;
      tail = v.tail;
      ordered = omega arith;
      within = omega (arith, v.within);
      values = λ n h. refl;
      known = λ h. absurd (omega arith);
      stages = λ j ne. update_ne x.stage s' (x.takes % N) j (λ e. ne (sym e));
      buffer = λ j ne. refl;
      here = record {
        index = ap (λ t. ticket_of t % N) now ∙ ap (λ n. n % N) index;
        bounds = subst (Bounds N (x.takes + 1) x.puts) (sym now) bounds;
        slot =
            slot-At g i v x.takes was
            ∙ ap₂ (λ m c. some (record { stamp = m; value = c }))
                (sym st ∙ ap (stamp_of g) (sym now)) (sym co ∙ ap (content_of N x.value) (sym now));
      };
    }),
    record {
      keeps = record {
        puts_up = omega arith;
        takes_up = omega arith;
        once = omega arith;
        values = λ n h. refl;
        stages = one_stage i (x.takes % N) s' x _ (
            subst (MayChange i x (given s' u)) (sym was) (record {
              mine = λ j ne e. absurd (cc e);
              taken = λ e. absurd (cc e);
              given = λ _. omega arith;
            }));
        others = λ j ne. update_ne x.status u i j (λ e. ne (sym e));
        owners = other_owner x.stage i (x.takes % N) s' (inr whose);
      };
      acts =
          let (old, is) = v.known x.takes some_left in
          let later = values_from x.value (x.takes + 1) (x.puts - (x.takes + 1)) in
          let before : contents x ≡ old ∷ later =
            contents_take x v.known v.ordered old some_left is in
          subst (λ z. Act N (contents x) (x.status i) later z)
            (sym (update_self x.status u i i refl))
            (subst (λ z. Act N (contents x) z later u) (sym at)
              (subst (λ xs. Act N xs u' later u) (sym before)
                (act old later is (sym (ap length before) ∙ length-contents x v.known v.ordered))));
    },
    now,
    update_self x.status u i i refl,
  )
    where
      now : update x.stage (x.takes % N) s' (x.takes % N) ≡ s'
      now = update_self x.stage s' (x.takes % N) (x.takes % N) refl
