-- ===== src/TaskQueue/Accesses.antt =====
-- The accesses of a thread of src/core/task_queue.cc that change the queue, as long as positions do not
-- wrap.
use nano_redis.Prelude.{
  ℕ, ◌+◌, ◌-◌, ◌%◌, ◌^◌, ◌≤◌, ◌<◌, ◌≡◌, refl, ap, ◌∙◌, sym, arith, true, Option, none, some, [],
  ◌∷◌, ◌++◌, inl, inr,
}
use mathlib.Core.Path.{subst}
use nano_redis.TaskQueue.{
  Cell, Queue, Pc, enq_seen, enq_claimed, enq_stored, enq_done, deq_seen, deq_claimed, deq_moved,
  deq_done, cell, put, set_storage, set_sequence, next,
}
use nano_redis.TaskQueue.Threads.{System, place}
use nano_redis.TaskQueue.Invariant.{seq, task_at, owns, IsSound, Inv}
use nano_redis.TaskQueue.Others.{seq_again, cell-put}
use nano_redis.TaskQueue.Writes.{write-Inv}
use nano_redis.TaskQueue.Claims.{claim-Inv, take-Inv}

module _ {A : Type 0} (capacity : ℕ) (two : 2 ≤ capacity) where
  here_seq : (q : Queue A) (pos : ℕ) (c : Cell A) → seq (put q pos c) pos ≡ c.sequence
  here_seq q pos c = ap (λ (x : Cell A). x.sequence) (cell-put q pos c)

  again_seq :
      (q : Queue A) (pos : ℕ) (c : Cell A) → seq (put q pos c) (pos + q.capacity) ≡ c.sequence
  again_seq q pos c = seq_again (put q pos c) pos ∙ here_seq q pos c

  module _ (s : System A) (i : ℕ) (inv : Inv capacity s)
      (small : s.queue.enqueue_pos + capacity < 2 ^ 62) where
    pub at_pc : (pc : Pc A) → s.pcs i ≡ pc → IsSound s.queue s.claims s.moves pc
    at_pc pc e = subst (IsSound s.queue s.claims s.moves) e (inv.sound i)

    own_pc : (pc : Pc A) (p : ℕ) → s.pcs i ≡ pc → owns pc p ≡ true → owns (s.pcs i) p ≡ true
    own_pc pc p e o = ap (λ (x : Pc A). owns x p) e ∙ o

    pub claim_turn :
        (v : A) (pos : ℕ)
        → s.queue.enqueue_pos ≡ pos
        → IsSound s.queue s.claims s.moves (enq_seen v pos)
        → Inv capacity (record {
          queue = record s.queue { enqueue_pos = next pos };
          pcs = place s.pcs i (enq_claimed v pos);
          claims = s.claims ++ v ∷ [];
          moves = s.moves;
        })
    claim_turn v pos e h =
        let now : s.queue.enqueue_pos + 1 ≡ next pos = omega (arith, e, small) in
        let free = ap (seq s.queue) e ∙ h.1 (sym e) ∙ sym e in
        subst
          (λ (n : ℕ). Inv capacity (record {
            queue = record s.queue { enqueue_pos = n };
            pcs = place s.pcs i (enq_claimed v pos);
            claims = s.claims ++ v ∷ [];
            moves = s.moves;
          }))
          now
          (subst
            (λ (n : ℕ). Inv capacity (record {
              queue = record s.queue { enqueue_pos = s.queue.enqueue_pos + 1 };
              pcs = place s.pcs i (enq_claimed v n);
              claims = s.claims ++ v ∷ [];
              moves = s.moves;
            }))
            e (claim-Inv capacity s i v two inv free))

    pub take_turn_from :
        (pos : ℕ)
        → s.queue.dequeue_pos ≡ pos
        → IsSound s.queue s.claims s.moves (deq_seen pos)
        → Inv capacity (record s {
          queue = record s.queue { dequeue_pos = next pos };
          pcs = place s.pcs i (deq_claimed pos);
        })
    take_turn_from pos e h =
        let now : s.queue.dequeue_pos + 1 ≡ next pos = omega (arith, e, small, inv.ordered) in
        let full : seq s.queue s.queue.dequeue_pos ≡ s.queue.dequeue_pos + 1 =
          ap (seq s.queue) e ∙ h.1 (sym e) ∙ ap (λ (n : ℕ). n + 1) (sym e) in
        subst
          (λ (n : ℕ). Inv capacity (record s {
            queue = record s.queue { dequeue_pos = n };
            pcs = place s.pcs i (deq_claimed pos);
          }))
          now
          (subst
            (λ (n : ℕ). Inv capacity (record s {
              queue = record s.queue { dequeue_pos = s.queue.dequeue_pos + 1 };
              pcs = place s.pcs i (deq_claimed n);
            }))
            e (take-Inv capacity s i two inv full))

    pub store_turn :
        (v : A) (pos : ℕ)
        → s.pcs i ≡ enq_claimed v pos
        → Inv capacity (record s {
          queue = set_storage s.queue pos (some v);
          pcs = place s.pcs i (enq_stored v pos);
        })
    store_turn v pos e =
        let h = at_pc (enq_claimed v pos) e in
        let c : Cell A = record (cell s.queue pos) { storage = some v } in
        let kept : seq (put s.queue pos c) pos ≡ pos = here_seq s.queue pos c ∙ h.2 in
        write-Inv capacity s i pos pos c (enq_stored v pos) s.moves two inv
          (own_pc (enq_claimed v pos) pos e (ground arith)) h.1 (omega (arith, inv.bounded, h.0))
          (inl (h.2, h.0, refl)) (λ p o. own_pc (enq_claimed v pos) p e o)
          (h.0, h.1, kept, h.3, ap (λ (x : Cell A). x.storage) (cell-put s.queue pos c))
          (record { turns = inl kept; has_task = λ k l. absurd (omega (arith, kept, k)) })
          (λ p n. refl) inv.right

    pub publish_turn :
        (v : A) (pos : ℕ)
        → s.pcs i ≡ enq_stored v pos
        → Inv capacity (record s {
          queue = set_sequence s.queue pos (next pos);
          pcs = place s.pcs i (enq_done true);
        })
    publish_turn v pos e =
        let h = at_pc (enq_stored v pos) e in
        let c : Cell A = record (cell s.queue pos) { sequence = next pos } in
        let now : seq (put s.queue pos c) pos ≡ pos + 1 =
          here_seq s.queue pos c ∙ omega (arith, h.1, small) in
        write-Inv capacity s i pos pos c (enq_done true) s.moves two inv
          (own_pc (enq_stored v pos) pos e (ground arith)) h.1 (omega (arith, inv.bounded, h.0))
          (inl (h.2, h.0, refl)) (λ p o. absurd (ground (arith, o))) tt
          (record {
            turns = inr (inl (h.1, now));
            has_task =
                λ k l. ap (λ (x : Cell A). x.storage) (cell-put s.queue pos c) ∙ h.4 ∙ sym h.3;
          })
          (λ p n. refl) inv.right

    pub move_turn :
        (pos : ℕ)
        → s.pcs i ≡ deq_claimed pos
        → Inv capacity (record {
          queue = set_storage s.queue pos none;
          pcs = place s.pcs i (deq_moved pos (task_at s.queue pos));
          claims = s.claims;
          moves = (pos, task_at s.queue pos) ∷ s.moves;
        })
    move_turn pos e =
        let h = at_pc (deq_claimed pos) e in
        let c : Cell A = record (cell s.queue pos) { storage = none } in
        let w = pos + s.queue.capacity in
        let kept : seq (put s.queue pos c) pos ≡ pos + 1 = here_seq s.queue pos c ∙ h.2 in
        let later : seq (put s.queue pos c) w ≡ pos + 1 = again_seq s.queue pos c ∙ h.2 in
        write-Inv capacity s i pos w c (deq_moved pos (task_at s.queue pos))
          ((pos, task_at s.queue pos) ∷ s.moves) two inv
          (own_pc (deq_claimed pos) pos e (ground arith)) (omega (arith, h.0, inv.ordered))
          (omega (arith, h.1, inv.fixed)) (inr (h.2, h.0, omega (arith, inv.fixed)))
          (λ p o. own_pc (deq_claimed pos) p e o) (h.0, h.1, kept, h.3)
          (record {
            turns = inr (inr (h.1, omega (arith, later)));
            has_task = λ k l. absurd (omega (arith, later, k, two, inv.fixed));
          })
          (λ p n. ground (arith, n)) (h.0, h.3, h.4, inv.right)

    pub release_turn :
        (pos : ℕ) (t : Option A)
        → s.pcs i ≡ deq_moved pos t
        → Inv capacity (record s {
          queue = set_sequence s.queue pos ((pos + (s.queue.capacity - 1) + 1) % 2 ^ 64);
          pcs = place s.pcs i (deq_done t);
        })
    release_turn pos t e =
        let h = at_pc (deq_moved pos t) e in
        let seq' = (pos + (s.queue.capacity - 1) + 1) % 2 ^ 64 in
        let c : Cell A = record (cell s.queue pos) { sequence = seq' } in
        let w = pos + s.queue.capacity in
        let later : seq (put s.queue pos c) w ≡ w =
          again_seq s.queue pos c ∙ omega (arith, h.0, small, two, inv.ordered, inv.fixed) in
        write-Inv capacity s i pos w c (deq_done t) s.moves two inv
          (own_pc (deq_moved pos t) pos e (ground arith)) (omega (arith, h.0, inv.ordered))
          (omega (arith, h.1, inv.fixed)) (inr (h.2, h.0, omega (arith, inv.fixed)))
          (λ p o. absurd (ground (arith, o))) tt
          (record { turns = inl later; has_task = λ k l. absurd (omega (arith, later, k)) })
          (λ p n. refl) inv.right
