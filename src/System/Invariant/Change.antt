-- ===== src/System/Invariant/Change.antt =====
-- A step that changes one slot leaves the invariant of the memory true.
use nure_queue.Common.{
  ℕ, ◌+◌, ◌%◌, ◌≤◌, ◌<◌, ◌≡◌, ◌≢◌, refl, sym, ap, ap₂, subst, ◌∙◌, ◌⊎◌, inl, inr, Option, some,
  dec_lt, ℕ_discrete, arith,
}
use nure_queue.Target.{Build}
use nure_queue.Lap.Geometry.{Geometry}
use nure_queue.Lap.Ticket.{position}
use nure_queue.Queue.{Queue}
use nure_queue.System.Invariant.Defs.{
  Stage, empty, full, claimed, writing, popping, reading, ring_claimed, ring_stored, ring_written,
  Ghost, ticket_of, Bounds, stamp_of, content_of, SlotIs, Memory,
}
use native.Mathlib.Nat.{add-mod_right}

-- A count of tickets stays, or takes a ticket that is not `m` nor a lap after `m`.
abbrev pub Clear : ℕ → ℕ → ℕ → ℕ → Type 0
Clear N m old new = (new ≡ old) ⊎ ((new ≡ old + 1) × (m ≢ old) × (m + N ≢ old))

pub Bounds-Clear :
    (N t p t' p' : ℕ) (s : Stage)
    → t ≤ p
    → Clear N (ticket_of s) t t'
    → Clear N (ticket_of s) p p'
    → Bounds N t p s
    → Bounds N t' p' s
Bounds-Clear N t p t' p' (empty n) le ht hp h = ground arith
Bounds-Clear N t p t' p' (full n) le ht hp h = ground arith
Bounds-Clear N t p t' p' (claimed i n) le ht hp h = ground arith
Bounds-Clear N t p t' p' (writing i n) le ht hp h = ground arith
Bounds-Clear N t p t' p' (popping i n) le ht hp h = ground arith
Bounds-Clear N t p t' p' (reading i n) le ht hp h = ground arith
Bounds-Clear N t p t' p' (ring_claimed i n) le ht hp h = ground arith
Bounds-Clear N t p t' p' (ring_stored i n) le ht hp h = ground arith
Bounds-Clear N t p t' p' (ring_written i n) le ht hp h = ground arith

-- What a slot holds depends on the values of tickets that pushes have taken.
content_stays :
    {A : Type 0} (N t p : ℕ) (old new : ℕ → Option A) (s : Stage)
    → t ≤ p
    → Bounds N t p s
    → ((n : ℕ) → n < p → new n ≡ old n)
    → content_of N new s ≡ content_of N old s
content_stays N t p old new (empty n) le h same = refl
content_stays N t p old new (full n) le h same = same n h.1
content_stays N t p old new (claimed i n) le h same = refl
content_stays N t p old new (writing i n) le h same = same n h.1
content_stays N t p old new (popping i n) le h same = same n (omega arith)
content_stays N t p old new (reading i n) le h same = refl
content_stays N t p old new (ring_claimed i n) le h same = same n (omega arith)
content_stays N t p old new (ring_stored i n) le h same = same n (omega arith)
content_stays N t p old new (ring_written i n) le h same = same (n + N) h.1

-- A count of tickets stays, or takes the next ticket, which is one of slot `k`.
abbrev pub Counts : ℕ → ℕ → ℕ → ℕ → Type 0
Counts N k old new = (new ≡ old) ⊎ ((new ≡ old + 1) × (old % N ≡ k))

Clear-other : (N k old new m : ℕ) → Counts N k old new → m % N ≢ k → Clear N m old new
Clear-other N k old new m (inl e) ne = inl e
Clear-other N k old new m (inr (e, here)) ne = inr (
  e,
  (λ same. ne (ap (λ n. n % N) same ∙ here)),
  (λ same. ne (sym (add-mod_right m N) ∙ ap (λ n. n % N) same ∙ here)),
)

module _ {A : Type 0} {b : Build} {N L : ℕ} (g : Geometry b N L) where
  -- The memory before and after an access, where slot `k` and the next ticket of it may change.
  pub record Change (k : ℕ) (x : Ghost A) (q : Queue A) (y : Ghost A) (r : Queue A) : Type 0 where
    pub takes : Counts N k x.takes y.takes
    pub puts : Counts N k x.puts y.puts
    pub lap : r.one_lap ≡ q.one_lap
    pub head : r.head ≡ position g y.takes
    pub tail : r.tail ≡ position g y.puts
    pub ordered : y.takes ≤ y.puts
    pub within : y.puts ≤ y.takes + N
    pub values : (n : ℕ) → n < x.puts → y.value n ≡ x.value n
    pub known : x.puts < y.puts → (v : A) × (y.value x.puts ≡ some v)
    pub stages : (j : ℕ) → j ≢ k → y.stage j ≡ x.stage j
    pub buffer : (j : ℕ) → j ≢ k → r.buffer j ≡ q.buffer j
    pub here : SlotIs g y r k

  module _ {k : ℕ} {x : Ghost A} {q : Queue A} {y : Ghost A} {r : Queue A} (v : Memory g x q)
      (c : Change k x q y r) where
    other_slot : (j : ℕ) → j < N → j ≢ k → SlotIs g y r j
    other_slot j lt ne =
        let s = v.slots j lt in
        let same = c.stages j ne in
        let clear : ticket_of (x.stage j) % N ≢ k = λ e. ne (sym s.index ∙ e) in
        let bounds =
          Bounds-Clear N x.takes x.puts y.takes y.puts (x.stage j) v.ordered
            (Clear-other N k _ _ _ c.takes clear) (Clear-other N k _ _ _ c.puts clear) s.bounds in
        record {
          index = ap (λ t. ticket_of t % N) same ∙ s.index;
          bounds = subst (Bounds N y.takes y.puts) (sym same) bounds;
          slot =
              c.buffer j ne
              ∙ s.slot
              ∙ ap₂ (λ m o. some (record { stamp = m; value = o })) (sym (ap (stamp_of g) same))
                  (sym (
                      content_stays N x.takes x.puts x.value y.value (x.stage j) v.ordered s.bounds
                        c.values)
                    ∙ sym (ap (content_of N y.value) same));
        }

    known_after : (n : ℕ) → n < y.puts → (w : A) × (y.value n ≡ some w)
    known_after n lt = elim (dec_lt n x.puts) [
      | yes old ↦ let (w, e) = v.known n old in (w, c.values n old ∙ e)
      | no new ↦ elim c.puts [
        | inl e ↦ absurd (omega arith)
        | inr (e, _) ↦
            let (w, is) = c.known (omega arith) in
            (w, ap y.value {x = n} {y = x.puts} (omega arith) ∙ is)
      ]
    ]

    pub Change-Memory : Memory g y r
    Change-Memory = record {
      lap = c.lap ∙ v.lap;
      head = c.head;
      tail = c.tail;
      ordered = c.ordered;
      within = c.within;
      known = known_after;
      slots = λ j lt. elim (ℕ_discrete j k) [
        | yes e ↦ subst (SlotIs g y r) (sym e) c.here
        | no ne ↦ other_slot j lt ne
      ];
    }
