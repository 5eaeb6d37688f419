-- ===== src/Thread/Step.antt =====
-- `step`: one access of a thread to the memory of a queue, for every point of the methods of
-- src/lib.rs. Accesses are sequentially consistent.
pub mod Laws
use nure_queue.Common.{ℕ, Bool, ◌&&◌, not, Option, none, some, ◌==◌, if◌then◌else◌}
use nure_queue.Common.Family.{update}
use nure_queue.Target.{Build, index_bits, wrapping_add, wrapping_sub}
use nure_queue.Lap.{index_of, next_pos, distance}
use nure_queue.Backoff.{Backoff, spin, snooze}
use nure_queue.Slot.{Slot, write_value, read_value, replace_value, stamp_load, stamp_store}
use nure_queue.Queue.{Queue}
use nure_queue.Thread.{
  Closure, when_full, ring, Reply, pushed, rejected, option, flag, count, Point, push_tail,
  push_stamp, push_claim, push_write, push_publish, full_head, ring_claim, ring_tail, ring_replace,
  ring_publish, pop_head, pop_stamp, pop_claim, pop_read, pop_publish, pop_tail, empty_head,
  empty_tail, full_tail, full_check, len_tail, len_head, len_again, done, fault,
}

module _ {ℓ} {A : Type ℓ} (b : Build) (N : ℕ) where
  -- The end of an access to slot `i`: the slot after it, or undefined behaviour.
  put_back : Queue A → ℕ → Option (Slot A × Point A) → Queue A × Point A
  put_back q i none = (q, fault)
  put_back q i (some (s, p)) = (record q { buffer = update q.buffer i (some s) }, p)

  with_slot :
      Queue A → ℕ → (Slot A → Option (Slot A × Point A)) → Option (Slot A) → Queue A × Point A
  unfolding put_back
  with_slot q i access none = (q, fault)
  with_slot q i access (some s) = put_back q i (access s)

  look : (Slot A → Point A) → Option (Slot A) → Point A
  look next none = fault
  look next (some s) = next s

  -- `self.buffer.get_unchecked(index).assume_init_ref()` and one access to that slot.
  at_slot : ℕ → (Slot A → Option (Slot A × Point A)) → Queue A → Queue A × Point A
  unfolding with_slot
  at_slot pos access q = let i = index_of b q.one_lap pos in with_slot q i access (q.buffer i)

  -- The same for an access that only reads.
  peek_slot : ℕ → (Slot A → Point A) → Queue A → Queue A × Point A
  unfolding look
  peek_slot pos next q = (q, look next (q.buffer (index_of b q.one_lap pos)))

  -- The three-way test of `push_or_else` on a stamp, and what its closure does first on the second way.
  unfoldable pub after_push_stamp : Queue A → Closure → A → Backoff → (tail stamp : ℕ) → Point A
  after_push_stamp q c v k tail stamp =
      if tail == stamp
      then push_claim c v k tail
      else (if wrapping_add (index_bits b) stamp q.one_lap == wrapping_add (index_bits b) tail 1
          then elim c [ when_full ↦ full_head v k tail | ring ↦ ring_claim v k tail ]
          else push_tail c v (snooze b k).0)

  -- The three-way test of `pop` on a stamp.
  unfoldable pub after_pop_stamp : Backoff → (head stamp : ℕ) → Point A
  after_pop_stamp k head stamp =
      if wrapping_add (index_bits b) head 1 == stamp
      then pop_claim k head
      else (if stamp == head then pop_tail k head else pop_head (snooze b k).0)

  -- One access of a thread. `spurious` says whether a `compare_exchange_weak` fails with no reason.
  unfoldable pub step : Bool → Queue A → Point A → Queue A × Point A
  unfolding at_slot peek_slot after_push_stamp after_pop_stamp
  step spurious q (push_tail c v k) = (q, push_stamp c v k q.tail)
  step spurious q (push_stamp c v k tail) =
      peek_slot tail (λ s. after_push_stamp q c v k tail (stamp_load s)) q
  step spurious q (push_claim c v k tail) =
      if q.tail == tail && not spurious
      then (record q { tail = next_pos b N q.one_lap tail }, push_write c v tail)
      else (q, push_stamp c v (spin b k).0 q.tail)
  step spurious q (push_write c v tail) =
      at_slot tail (λ s. some (write_value v s, push_publish c tail)) q
  step spurious q (push_publish c tail) =
      at_slot tail
        (λ s. some (
          stamp_store (wrapping_add (index_bits b) tail 1) s,
          done (elim c [ when_full ↦ pushed | ring ↦ option none ]),
        ))
        q
  step spurious q (full_head v k tail) = (
    q,
    (if wrapping_add (index_bits b) q.head q.one_lap == tail
        then done (rejected v)
        else push_tail when_full v (spin b k).0),
  )
  step spurious q (ring_claim v k tail) =
      if q.head == wrapping_sub (index_bits b) tail q.one_lap && not spurious
      then (
        record q { head = wrapping_sub (index_bits b) (next_pos b N q.one_lap tail) q.one_lap },
        ring_tail v tail,
      )
      else (q, push_tail ring v (spin b k).0)
  step spurious q (ring_tail v tail) =
      (record q { tail = next_pos b N q.one_lap tail }, ring_replace v tail)
  step spurious q (ring_replace v tail) =
      at_slot tail
        (λ s. elim (replace_value v s) [
          | none ↦ none
          | some (old, s') ↦ some (s', ring_publish old tail)
        ])
        q
  step spurious q (ring_publish old tail) =
      at_slot tail
        (λ s. some (stamp_store (wrapping_add (index_bits b) tail 1) s, done (option (some old)))) q
  step spurious q (pop_head k) = (q, pop_stamp k q.head)
  step spurious q (pop_stamp k head) = peek_slot head (λ s. after_pop_stamp k head (stamp_load s)) q
  step spurious q (pop_claim k head) =
      if q.head == head && not spurious
      then (record q { head = next_pos b N q.one_lap head }, pop_read head)
      else (q, pop_stamp (spin b k).0 q.head)
  step spurious q (pop_read head) =
      at_slot head
        (λ s. elim (read_value s) [
          | none ↦ none
          | some (msg, s') ↦ some (s', pop_publish msg head)
        ])
        q
  step spurious q (pop_publish msg head) =
      at_slot head
        (λ s.
          some
            (stamp_store (wrapping_add (index_bits b) head q.one_lap) s, done (option (some msg))))
        q
  step spurious q (pop_tail k head) =
      (q, (if q.tail == head then done (option none) else pop_head (spin b k).0))
  step spurious q empty_head = (q, empty_tail q.head)
  step spurious q (empty_tail head) = (q, done (flag (q.tail == head)))
  step spurious q full_tail = (q, full_check q.tail)
  step spurious q (full_check tail) =
      (q, done (flag (wrapping_add (index_bits b) q.head q.one_lap == tail)))
  step spurious q len_tail = (q, len_head q.tail)
  step spurious q (len_head tail) = (q, len_again tail q.head)
  step spurious q (len_again tail head) =
      (q, (if q.tail == tail then done (count (distance b N q.one_lap head tail)) else len_tail))
  step spurious q (done r) = (q, done r)
  step spurious q fault = (q, fault)
