-- ===== src/TaskQueue/Writes.antt =====
-- The accesses of src/core/task_queue.cc that change no position: reads, and the writes of an owner to
-- its cell.
use nano_redis.Prelude.{
  ℕ, ◌+◌, ◌%◌, ◌≤◌, ◌<◌, ◌≡◌, ◌⊎◌, ap, ◌∙◌, sym, arith, true, false, Option, List, ◌==◌, ==_iff,
  Bool-cases, inl, inr,
}
use mathlib.Core.Path.{subst}
use native.Mathlib.Nat.{add-mod_right}
use nano_redis.TaskQueue.{Cell, Queue, Pc, put}
use nano_redis.TaskQueue.Threads.{System, place}
use nano_redis.TaskQueue.Invariant.{slot_ne, seq, is_moved, owns, CellOk, IsSound, AreRight, Inv}
use nano_redis.TaskQueue.Others.{placed, unique_kept, cell-put_ne, write-IsSound}

module _ {A : Type 0} where
  -- A thread that reads, or gives up.
  pub quiet-Inv :
      (capacity : ℕ) (s : System A) (i : ℕ) (pc : Pc A)
      → Inv capacity s
      → IsSound s.queue s.claims s.moves pc
      → ((p : ℕ) → owns pc p ≡ false)
      → Inv capacity (record s { pcs = place s.pcs i pc })
  quiet-Inv capacity s i pc inv h free = record {
    fixed = inv.fixed;
    counted = inv.counted;
    ordered = inv.ordered;
    bounded = inv.bounded;
    cells = inv.cells;
    sound = placed (IsSound s.queue s.claims s.moves) s.pcs i pc h (λ j e. inv.sound j);
    unique = unique_kept s.pcs i pc inv.unique (λ p o. absurd (ground (arith, o, free p)));
    right = inv.right;
  }

  CellOk-put_ne :
      (q : Queue A) (claims : List A) (pos p : ℕ) (c : Cell A)
      → (p % q.capacity == pos % q.capacity) ≡ false
      → CellOk q claims p
      → CellOk (put q pos c) claims p
  CellOk-put_ne q claims pos p c e ok =
      let same = cell-put_ne q pos p c e in
      let same_seq : seq (put q pos c) p ≡ seq q p = ap (λ (x : Cell A). x.sequence) same in
      record {
        turns = elim ok.turns [
          | inl h ↦ inl (same_seq ∙ h)
          | inr (inl h) ↦ inr (inl (h.0, same_seq ∙ h.1))
          | inr (inr h) ↦ inr (inr (h.0, ap (λ (n : ℕ). n + q.capacity) same_seq ∙ h.1))
        ];
        has_task = λ h k. ap (λ (x : Cell A). x.storage) same ∙ ok.has_task (sym same_seq ∙ h) k;
      }

  -- The owner of `pos` writes `c`; `w` is the position of the window with that cell.
  pub write-Inv :
      (capacity : ℕ) (s : System A) (i pos w : ℕ) (c : Cell A) (pc : Pc A)
      (moves : List (ℕ × Option A))
      → 2 ≤ capacity
      → Inv capacity s
      → owns (s.pcs i) pos ≡ true
      → pos < s.queue.enqueue_pos
      → s.queue.enqueue_pos ≤ pos + capacity
      → ((seq s.queue pos ≡ pos) × (s.queue.dequeue_pos ≤ pos) × (w ≡ pos))
        ⊎ ((seq s.queue pos ≡ pos + 1) × (pos < s.queue.dequeue_pos) × (w ≡ pos + capacity))
      → ((p : ℕ) → owns pc p ≡ true → owns (s.pcs i) p ≡ true)
      → IsSound (put s.queue pos c) s.claims moves pc
      → CellOk (put s.queue pos c) s.claims w
      → ((p : ℕ) → (p == pos) ≡ false → is_moved p moves ≡ is_moved p s.moves)
      → AreRight s.queue.dequeue_pos s.claims moves
      → Inv capacity (record {
        queue = put s.queue pos c;
        pcs = place s.pcs i pc;
        claims = s.claims;
        moves = moves;
      })
  write-Inv capacity s i pos w c pc moves two inv own l m o fewer h here same right = record {
    fixed = inv.fixed;
    counted = inv.counted;
    ordered = inv.ordered;
    bounded = inv.bounded;
    cells = λ p k n. elim (Bool-cases (p == w)) [
      | inl e ↦ subst (CellOk (put s.queue pos c) s.claims) (sym ((==_iff p w).0 e)) here
      | inr e ↦ CellOk-put_ne s.queue s.claims pos p c (apart p k n e) (inv.cells p k n)
    ];
    sound = placed (IsSound (put s.queue pos c) s.claims moves) s.pcs i pc h (λ j e.
        write-IsSound s.queue s.claims s.moves moves pos c (s.pcs j) (omega (arith, two, inv.fixed))
          inv.ordered (omega (arith, inv.bounded, inv.fixed)) l (omega (arith, m, inv.fixed))
          (elim o [ inl x ↦ inl (x.0, x.1) | inr x ↦ inr (x.0, x.1) ]) (others j e) same
          (inv.sound j));
    unique = unique_kept s.pcs i pc inv.unique fewer;
    right = right;
  }
    where
      others : (j : ℕ) → (j == i) ≡ false → owns (s.pcs j) pos ≡ false
      others j e = elim (Bool-cases (owns (s.pcs j) pos)) [
        | inl x ↦ absurd (ground (arith, inv.unique j i pos x own, e))
        | inr x ↦ x
      ]

      apart :
          (p : ℕ)
          → s.queue.dequeue_pos ≤ p
          → p < s.queue.dequeue_pos + capacity
          → (p == w) ≡ false
          → (p % s.queue.capacity == pos % s.queue.capacity) ≡ false
      apart p k n e = elim o [
        | inl x ↦
            slot_ne s.queue.capacity p pos (ground (arith, e, x.2))
              (omega (arith, n, x.1, inv.fixed)) (omega (arith, l, k, inv.bounded, inv.fixed))
        | inr x ↦
            let far =
              slot_ne s.queue.capacity p (pos + s.queue.capacity)
                (ground (arith, e, x.2, inv.fixed)) (omega (arith, n, m, inv.ordered, inv.fixed))
                (omega (arith, k, x.1, inv.fixed)) in
            ap (λ (t : ℕ). p % s.queue.capacity == t) (sym (add-mod_right pos s.queue.capacity))
            ∙ far
      ]
