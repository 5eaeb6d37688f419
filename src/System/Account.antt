-- ===== src/System/Account.antt =====
-- What becomes of the values that any number of threads pass to the methods of one queue.
use nure_queue.Common.{
  ℕ, ◌+◌, ◌*◌, ◌≤◌, ◌<◌, ◌≡◌, refl, ap, ◌∙◌, true, List, none, some, dec_lt, arith,
}
use nure_queue.Common.Family.{update_ne}
use nure_queue.Target.{Build}
use nure_queue.Lap.Geometry.{Geometry}
use nure_queue.Queue.{Queue}
use nure_queue.Thread.{Reply, done, Call, entry}
use nure_queue.Thread.Step.{step}
use nure_queue.Atomic.{Event}
use nure_queue.Atomic.Account.{
  sum_below, sum_below-eq, weight, in_call, in_reply, in_status, passed, given_back,
  AtomicTrace-weight,
}
use nure_queue.Drop.{drop}
use nure_queue.System.{System, Trace, begin, next, move, call}
use nure_queue.System.Invariant.Owns.{uses}
use nure_queue.System.Quiet.{quiet_drop}

module _ {A : Type 0} where
  pub entry-uses : (c : Call A) → uses (entry c) ≡ none
  unfolding entry
  entry-uses (Call.push v) = refl
  entry-uses (Call.force_push v) = refl
  entry-uses Call.pop = refl
  entry-uses Call.is_empty = refl
  entry-uses Call.is_full = refl
  entry-uses Call.len = refl

module _ {A : Type 0} {b : Build} {N L : ℕ} (g : Geometry b N L) where
  -- A thread that is none of the first `n` makes no access.
  idle :
      {n patience : ℕ} {first : ℕ → Call A} {h : List (Event A)} {s : System A}
      → Trace b N n patience L first h s
      → (j : ℕ) → n ≤ j
      → s.at j ≡ entry (first j)
  idle begin j le = refl
  idle (next {s = s} r (move i f lt fresh)) j le =
      update_ne s.at (step b N f s.queue (s.at i)).1 i j (λ e. omega (arith, e)) ∙ idle r j le
  idle (next {s = s} r (call i reply c lt at)) j le =
      update_ne s.at (entry c) i j (λ e. omega (arith, e)) ∙ idle r j le

  returned-quiet :
      {n patience : ℕ} {first : ℕ → Call A} {h : List (Event A)} {s : System A} (rs : ℕ → Reply A)
      → Trace b N n patience L first h s
      → ((i : ℕ) → i < n → s.at i ≡ done (rs i))
      → (i : ℕ) → uses (s.at i) ≡ none
  returned-quiet {n} {first = first} rs r all i = elim (dec_lt i n) [
    | yes lt ↦ ap uses (all i lt)
    | no ge ↦ ap uses (idle r i (omega arith)) ∙ entry-uses (first i)
  ]

  -- After any interleaving of any number of threads in a new queue in which every thread has returned,
  -- the drop of the queue runs to its end, and each value that was passed to a call of `push` or
  -- `force_push` is accounted for exactly once: a method has returned it, as `Err(v)` or as `Some(v)`,
  -- or the drop runs its destructor. So no value is lost, none is returned twice, and none is made up.
  -- Values are counted by any weight, on the calls and the replies of all threads. The condition: while
  -- a thread works on a position that it has loaded, the threads make fewer than `patience` accesses, and
  -- these with three laps of the buffer are no more than the positions of the words.
  pub all_accounted :
      (n patience : ℕ) (first : ℕ → Call A) (h : List (Event A)) (s : System A) (rs : ℕ → Reply A)
      → patience + 3 * N ≤ N * g.laps
      → Trace b N n patience L first h s
      → ((i : ℕ) → i < n → s.at i ≡ done (rs i))
      → (vs : List A) × (q : Queue A) × (drop b N true s.queue ≡ some (vs, q))
        × ((w : A → ℕ)
            → sum_below n (λ i. in_call w (first i)) + passed w h
              ≡ given_back w h + sum_below n (λ i. in_reply w (rs i)) + weight w vs)
  all_accounted n patience first h s rs far r all =
      let (t, trace, replies, (q, drops, _)) =
        quiet_drop g n patience first h s far r (returned-quiet rs r all) in
      (
        t.contents,
        q,
        drops,
        λ w. omega (
          arith,
          AtomicTrace-weight w trace,
          sum_below-eq n (λ i. in_reply w (rs i)) (λ i. in_status w (t.status i))
              (λ i lt. ap (in_status w) (replies i (rs i) (all i lt))),
        ),
      )
