-- ===== src/TaskQueue/Turns.antt =====
-- Every access of a thread of src/core/task_queue.cc, as long as positions do not wrap.
use nano_redis.Prelude.{
  ℕ, ◌+◌, ◌^◌, ◌≤◌, ◌<◌, ◌≡◌, refl, arith, Bool, false, not, ◌&&◌, none, ◌==◌, ==_iff, Bool-cases,
  inl, inr,
}
use nano_redis.TaskQueue.{
  Pc, idle, enq_start, enq_loaded, enq_seen, enq_claimed, enq_stored, enq_done, deq_start,
  deq_loaded, deq_seen, deq_claimed, deq_moved, deq_done, next, is_behind, advance,
}
use nano_redis.TaskQueue.Threads.{System, turn_from}
use nano_redis.TaskQueue.Invariant.{seq, Inv}
use nano_redis.TaskQueue.Writes.{quiet-Inv}
use nano_redis.TaskQueue.Accesses.{
  at_pc, claim_turn, take_turn_from, store_turn, publish_turn, move_turn, release_turn,
}

module _ {A : Type 0} (capacity : ℕ) (two : 2 ≤ capacity) (s : System A) (i : ℕ)
    (inv : Inv capacity s) (small : s.queue.enqueue_pos + capacity < 2 ^ 62) where
  pub turn-Inv : (weak : Bool) (pc : Pc A) → s.pcs i ≡ pc → Inv capacity (turn_from pc i weak s)
  unfolding advance
  turn-Inv weak idle e = quiet-Inv capacity s i idle inv tt (λ p. refl)
  turn-Inv weak (enq_done ok) e = quiet-Inv capacity s i (enq_done ok) inv tt (λ p. refl)
  turn-Inv weak (deq_done t) e = quiet-Inv capacity s i (deq_done t) inv tt (λ p. refl)
  turn-Inv weak (enq_start v) e =
      quiet-Inv capacity s i (enq_loaded v s.queue.enqueue_pos) inv (omega arith) (λ p. refl)
  turn-Inv weak deq_start e =
      quiet-Inv capacity s i (deq_loaded s.queue.dequeue_pos) inv (omega arith) (λ p. refl)
  turn-Inv weak (enq_loaded v pos) e = elim (Bool-cases (seq s.queue pos == pos)) [
    | inl x ↦ rw x (
        quiet-Inv capacity s i (enq_seen v pos) inv
          (
            at_pc capacity two s i inv small (enq_loaded v pos) e,
            λ y. (==_iff (seq s.queue pos) pos).0 x,
          )
          (λ p. refl))
    | inr x ↦ elim (Bool-cases (is_behind (seq s.queue pos) pos)) [
      | inl y ↦ rw (x, y) (quiet-Inv capacity s i (enq_done false) inv tt (λ p. refl))
      | inr y ↦ rw (x, y) (quiet-Inv capacity s i (enq_start v) inv tt (λ p. refl))
    ]
  ]
  turn-Inv weak (deq_loaded pos) e = elim (Bool-cases (seq s.queue pos == next pos)) [
    | inl x ↦ rw x (
        quiet-Inv capacity s i (deq_seen pos) inv
          (
            at_pc capacity two s i inv small (deq_loaded pos) e,
            λ y. omega (arith, (==_iff (seq s.queue pos) (next pos)).0 x, y, small, inv.ordered),
          )
          (λ p. refl))
    | inr x ↦ elim (Bool-cases (is_behind (seq s.queue pos) (next pos))) [
      | inl y ↦ rw (x, y) (quiet-Inv capacity s i (deq_done none) inv tt (λ p. refl))
      | inr y ↦ rw (x, y) (quiet-Inv capacity s i deq_start inv tt (λ p. refl))
    ]
  ]
  turn-Inv weak (enq_seen v pos) e = elim (Bool-cases ((s.queue.enqueue_pos == pos) && not weak)) [
    | inl x ↦ rw x (
        claim_turn capacity two s i inv small v pos
          ((==_iff s.queue.enqueue_pos pos).0 (ground (arith, x)))
          (at_pc capacity two s i inv small (enq_seen v pos) e))
    | inr x ↦ rw x (quiet-Inv capacity s i (enq_start v) inv tt (λ p. refl))
  ]
  turn-Inv weak (deq_seen pos) e = elim (Bool-cases ((s.queue.dequeue_pos == pos) && not weak)) [
    | inl x ↦ rw x (
        take_turn_from capacity two s i inv small pos
          ((==_iff s.queue.dequeue_pos pos).0 (ground (arith, x)))
          (at_pc capacity two s i inv small (deq_seen pos) e))
    | inr x ↦ rw x (quiet-Inv capacity s i deq_start inv tt (λ p. refl))
  ]
  turn-Inv weak (enq_claimed v pos) e = store_turn capacity two s i inv small v pos e
  turn-Inv weak (enq_stored v pos) e = publish_turn capacity two s i inv small v pos e
  turn-Inv weak (deq_claimed pos) e = move_turn capacity two s i inv small pos e
  turn-Inv weak (deq_moved pos t) e = release_turn capacity two s i inv small pos t e
