-- ===== src/TaskQueue/Safety.antt =====
-- What holds in every state that the threads of src/core/task_queue.cc can reach.
use nano_redis.Prelude.{
  ℕ, ◌+◌, ◌%◌, ◌^◌, ◌≤◌, ◌<◌, ◌≡◌, refl, ap, ◌∙◌, arith, true, List, [], ◌∷◌, length, length-append,
  ◌==◌, ==_iff, Bool-cases, inl, inr,
}
use native.Mathlib.Nat.{mod-eq_of_lt}
use nano_redis.TaskQueue.{
  Pc, idle, enq_start, enq_loaded, enq_seen, enq_claimed, enq_stored, enq_done, deq_start,
  deq_loaded, deq_seen, deq_claimed, deq_moved, deq_done, new_queue, advance,
}
use nano_redis.TaskQueue.Threads.{
  System, claimed, is_claim, Step, call_enqueue, call_dequeue, take_turn, start_system, Reach,
  start, later,
}
use nano_redis.TaskQueue.Invariant.{slot_ne, owns, AreRight, Inv}
use nano_redis.TaskQueue.Writes.{quiet-Inv}
use nano_redis.TaskQueue.Seen.{owned}
use nano_redis.TaskQueue.Turns.{turn-Inv}

module _ {A : Type 0} where
  claimed-grows : (pc pc' : Pc A) (l : List A) → length l ≤ length (claimed pc pc' l)
  claimed-grows (enq_seen v pos) pc' l = elim (Bool-cases (is_claim pc')) [
    | inl e ↦ rw e (omega (arith, length-append l (v ∷ [])))
    | inr e ↦ rw e (omega arith)
  ]
  claimed-grows idle pc' l = omega arith
  claimed-grows (enq_start v) pc' l = omega arith
  claimed-grows (enq_loaded v pos) pc' l = omega arith
  claimed-grows (enq_claimed v pos) pc' l = omega arith
  claimed-grows (enq_stored v pos) pc' l = omega arith
  claimed-grows (enq_done ok) pc' l = omega arith
  claimed-grows deq_start pc' l = omega arith
  claimed-grows (deq_loaded pos) pc' l = omega arith
  claimed-grows (deq_seen pos) pc' l = omega arith
  claimed-grows (deq_claimed pos) pc' l = omega arith
  claimed-grows (deq_moved pos t) pc' l = omega arith
  claimed-grows (deq_done t) pc' l = omega arith

  pub Step-grows : {s t : System A} → Step s t → length s.claims ≤ length t.claims
  Step-grows (call_enqueue i v r) = omega arith
  Step-grows (call_dequeue i r) = omega arith
  Step-grows {s} (take_turn i weak) =
      claimed-grows (s.pcs i) (advance weak s.queue (s.pcs i)).1 s.claims

  module _ (capacity : ℕ) (two : 2 ≤ capacity) where
    start-Inv : Inv {A = A} capacity (start_system capacity)
    unfolding new_queue
    start-Inv = record {
      fixed = refl;
      counted = refl;
      ordered = omega arith;
      bounded = omega arith;
      cells = λ p k l. record {
        turns = let below : p < capacity = omega (arith, l) in inl (mod-eq_of_lt below);
        has_task = λ h m. absurd (omega (arith, m));
      };
      sound = λ i. tt;
      unique = λ i j p o. absurd (ground (arith, o));
      right = tt;
    }

    Step-Inv :
        {s t : System A}
        → Step s t
        → length s.claims + capacity < 2 ^ 62
        → Inv capacity s
        → Inv capacity t
    Step-Inv {s} (call_enqueue i v r) small inv =
        quiet-Inv capacity s i (enq_start v) inv tt (λ p. refl)
    Step-Inv {s} (call_dequeue i r) small inv = quiet-Inv capacity s i deq_start inv tt (λ p. refl)
    Step-Inv {s} (take_turn i weak) small inv =
        turn-Inv capacity two s i inv (omega (arith, small, inv.counted)) weak (s.pcs i) refl

    pub Reach-Inv :
        {s : System A} → Reach capacity s → length s.claims + capacity < 2 ^ 62 → Inv capacity s
    Reach-Inv start small = start-Inv
    Reach-Inv (later r step) small =
        let grows = Step-grows step in
        Step-Inv step (omega (arith, small, grows)) (Reach-Inv r (omega (arith, small, grows)))

    -- In a state that threads reach from an empty queue with a capacity of at least 2, before the
    -- positions come near 2^62, no two threads have the same cell to themselves.
    pub exclusive :
        {s : System A} (i j p p' : ℕ)
        → Reach capacity s
        → length s.claims + capacity < 2 ^ 62
        → owns (s.pcs i) p ≡ true
        → owns (s.pcs j) p' ≡ true
        → p % capacity ≡ p' % capacity
        → i ≡ j
    exclusive {s} i j p p' r small o o' e =
        let inv = Reach-Inv r small in
        let near : s.queue.enqueue_pos ≤ s.queue.dequeue_pos + s.queue.capacity =
          omega (arith, inv.bounded, inv.fixed) in
        let a = owned s.queue s.claims s.moves (s.pcs i) p inv.ordered near (inv.sound i) o in
        let b = owned s.queue s.claims s.moves (s.pcs j) p' inv.ordered near (inv.sound j) o' in
        elim (Bool-cases (p == p')) [
          | inl x ↦ inv.unique i j p o (ap (owns (s.pcs j)) ((==_iff p p').0 x) ∙ o')
          | inr x ↦
              let apart =
                slot_ne capacity p p' x (omega (arith, a.0, b.2, inv.fixed))
                  (omega (arith, b.0, a.2, inv.fixed)) in
              absurd (ground (arith, apart, (==_iff (p % capacity) (p' % capacity)).1 e))
        ]

    -- In every state that threads reach from an empty queue with a capacity of at least 2, before
    -- the positions come near 2^62: the queue has as many positions claimed as tasks, of which at
    -- most `capacity` are still to be taken; what consumers have moved out is, for each position
    -- below the dequeue position at most once, the task that was claimed for it.
    pub delivered :
        {s : System A}
        → Reach capacity s
        → length s.claims + capacity < 2 ^ 62
        → (s.queue.enqueue_pos ≡ length s.claims)
          × (s.queue.dequeue_pos ≤ s.queue.enqueue_pos)
          × (s.queue.enqueue_pos ≤ s.queue.dequeue_pos + capacity)
          × AreRight s.queue.dequeue_pos s.claims s.moves
    delivered r small =
        let inv = Reach-Inv r small in (inv.counted, inv.ordered, inv.bounded, inv.right)
