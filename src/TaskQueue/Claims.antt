-- ===== src/TaskQueue/Claims.antt =====
-- The compare-exchanges of src/core/task_queue.cc that succeed.
use nano_redis.Prelude.{
  ℕ, ◌+◌, ◌≤◌, ◌<◌, ◌≡◌, ◌⊎◌, ap, ◌∙◌, sym, arith, false, [], ◌∷◌, ◌++◌, length-append, get_elem?,
  ◌==◌, ==_iff, Bool-cases, inl, inr,
}
use native.Mathlib.Decide.{dec_lt}
use nano_redis.TaskQueue.{Queue, enq_claimed, deq_claimed}
use nano_redis.TaskQueue.Threads.{System, place}
use nano_redis.TaskQueue.Invariant.{seq, IsSound, Inv}
use nano_redis.TaskQueue.Others.{get_elem?-before, get_elem?-last, placed, unique_new, seq_again}
use nano_redis.TaskQueue.Seen.{
  owned, AreRight-append, AreRight-next, AreRight-is_moved, room, claim-IsSound, take-IsSound,
}

module _ {A : Type 0} where
  pub claim-Inv :
      (capacity : ℕ) (s : System A) (i : ℕ) (v : A)
      → 2 ≤ capacity
      → Inv capacity s
      → seq s.queue s.queue.enqueue_pos ≡ s.queue.enqueue_pos
      → Inv capacity (record {
        queue = record s.queue { enqueue_pos = s.queue.enqueue_pos + 1 };
        pcs = place s.pcs i (enq_claimed v s.queue.enqueue_pos);
        claims = s.claims ++ v ∷ [];
        moves = s.moves;
      })
  claim-Inv capacity s i v two inv free = record {
    fixed = inv.fixed;
    counted = omega (arith, inv.counted, length-append s.claims (v ∷ []));
    ordered = omega (arith, inv.ordered);
    bounded = omega (arith, space, inv.fixed);
    cells = λ p k l.
        let ok = inv.cells p k l in
        record {
          turns = elim ok.turns [
            | inl h ↦ inl h
            | inr (inl h) ↦ inr (inl (omega (arith, h.0), h.1))
            | inr (inr h) ↦ elim (dec_lt e p) [
              | yes m ↦ inr (inr (omega (arith, m), h.1))
              | no m ↦ inl (at_end p (omega (arith, m, h.0)))
            ]
          ];
          has_task = λ h m. elim (dec_lt p e) [
            | yes n ↦
                ok.has_task h n
                ∙ sym (get_elem?-before s.claims v p (omega (arith, n, inv.counted)))
            | no n ↦ absurd (omega (arith, at_end p (omega (arith, m, n)), h))
          ];
        };
    sound =
        placed (IsSound (record q { enqueue_pos = e + 1 }) (s.claims ++ v ∷ []) s.moves) s.pcs i
          (enq_claimed v e)
          (
            inv.ordered,
            omega arith,
            free,
            ap (get_elem? (s.claims ++ v ∷ [])) inv.counted ∙ get_elem?-last s.claims v,
          )
          (λ j x.
            claim-IsSound q s.claims v s.moves (s.pcs j) wide inv.counted inv.ordered free
              (inv.sound j));
    unique = unique_new s.pcs i (enq_claimed v e) inv.unique (λ j p o. ground (
      arith,
      (owned q s.claims s.moves (s.pcs j) p inv.ordered (omega (arith, inv.bounded, inv.fixed))
          (inv.sound j) o).0,
    ));
    right =
        AreRight-append q.dequeue_pos s.claims v s.moves (omega (arith, inv.ordered, inv.counted))
          inv.right;
  }
    where
      q : Queue A
      q = s.queue

      e : ℕ
      e = s.queue.enqueue_pos

      wide : 2 ≤ s.queue.capacity
      wide = omega (arith, two, inv.fixed)

      at_end : (p : ℕ) → p ≡ s.queue.enqueue_pos → seq s.queue p ≡ p
      at_end p x = ap (seq s.queue) x ∙ free ∙ sym x

      space : s.queue.enqueue_pos + 1 ≤ s.queue.dequeue_pos + s.queue.capacity
      space =
          let near : s.queue.enqueue_pos ≤ s.queue.dequeue_pos + s.queue.capacity =
            omega (arith, inv.bounded, inv.fixed) in
          elim (inv.cells s.queue.dequeue_pos (omega arith) (omega (arith, two))).turns [
            | inl h ↦
                room s.queue s.queue.dequeue_pos (omega (arith, two, inv.fixed)) free near (inr h)
            | inr (inl h) ↦
                room s.queue s.queue.dequeue_pos (omega (arith, two, inv.fixed)) free near (inl h.1)
            | inr (inr h) ↦ omega (arith, h.0, two, inv.fixed)
          ]

  pub take-Inv :
      (capacity : ℕ) (s : System A) (i : ℕ)
      → 2 ≤ capacity
      → Inv capacity s
      → seq s.queue s.queue.dequeue_pos ≡ s.queue.dequeue_pos + 1
      → Inv capacity (record s {
        queue = record s.queue { dequeue_pos = s.queue.dequeue_pos + 1 };
        pcs = place s.pcs i (deq_claimed s.queue.dequeue_pos);
      })
  take-Inv capacity s i two inv full = record {
    fixed = inv.fixed;
    counted = inv.counted;
    ordered = omega (arith, reached);
    bounded = omega (arith, inv.bounded);
    cells = λ p k l. elim (dec_lt p (e + capacity)) [
      | yes m ↦
          let ok = inv.cells p (omega (arith, k)) m in
          record { turns = ok.turns; has_task = ok.has_task }
      | no m ↦
          let end : p ≡ e + s.queue.capacity = omega (arith, l, m, inv.fixed) in
          let again : seq s.queue p ≡ e + 1 = ap (seq s.queue) end ∙ seq_again s.queue e ∙ full in
          record {
            turns =
                inr (inr (omega (arith, end, inv.bounded, inv.fixed), omega (arith, again, end)));
            has_task = λ h n. absurd (omega (arith, again, h, end, two, inv.fixed));
          }
    ];
    sound =
        placed (IsSound (record q { dequeue_pos = e + 1 }) s.claims s.moves) s.pcs i (deq_claimed e)
          (
            omega arith,
            omega (arith, inv.bounded, inv.fixed),
            full,
            (inv.cells e (omega arith) (omega (arith, two))).has_task full reached,
            AreRight-is_moved e s.claims s.moves inv.right,
          )
          (λ j x. take-IsSound q s.claims s.moves (s.pcs j) full (inv.sound j));
    unique = unique_new s.pcs i (deq_claimed e) inv.unique (λ j p o.
        other p
          (owned q s.claims s.moves (s.pcs j) p inv.ordered (omega (arith, inv.bounded, inv.fixed))
            (inv.sound j) o).1);
    right = AreRight-next q.dequeue_pos s.claims s.moves inv.right;
  }
    where
      q : Queue A
      q = s.queue

      e : ℕ
      e = s.queue.dequeue_pos

      reached : s.queue.dequeue_pos < s.queue.enqueue_pos
      reached = elim (inv.cells s.queue.dequeue_pos (omega arith) (omega (arith, two))).turns [
        | inl h ↦ absurd (omega (arith, h, full))
        | inr (inl h) ↦ h.0
        | inr (inr h) ↦ absurd (omega (arith, h.1, full, two, inv.fixed))
      ]

      other :
          (p : ℕ)
          → (p < s.queue.dequeue_pos) ⊎ (seq s.queue p ≡ p)
          → (s.queue.dequeue_pos == p) ≡ false
      other p o = elim (Bool-cases (s.queue.dequeue_pos == p)) [
        | inr x ↦ x
        | inl x ↦
            let same = (==_iff s.queue.dequeue_pos p).0 x in
            elim o [
              | inl l ↦ absurd (omega (arith, l, same))
              | inr h ↦ absurd (omega (arith, ap (seq s.queue) same, full, h, same))
            ]
      ]
