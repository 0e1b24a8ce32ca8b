-- ===== src/TaskQueue/Bounded.antt =====
-- A queue of src/core/task_queue.cc between calls, and what a call makes of it.
use nano_redis.Prelude.{
  ℕ, suc, ◌+◌, ◌-◌, ◌%◌, ◌^◌, ◌≤◌, ◌<◌, ◌≡◌, ap, ◌∙◌, sym, arith, false, Option, none, some, List,
  [], ◌∷◌, ◌++◌, length, length-append, get_elem?, ◌==◌,
}
use native.Mathlib.Decide.{dec_lt}
use nano_redis.TaskQueue.{Cell, Queue, cell, next, set_storage, set_sequence}
use nano_redis.TaskQueue.Invariant.{slot_ne, seq, task_at}
use nano_redis.TaskQueue.Others.{get_elem?-before, get_elem?-last, seq_again, cell-put, cell-put_ne}

module _ {A : Type 0} where
  -- Between calls the queue has the tasks `items`, from the dequeue position on.
  pub record HoldsTasks (q : Queue A) (items : List A) : Type 0 where
    pub wide : 2 ≤ q.capacity
    pub small : q.enqueue_pos + q.capacity < 2 ^ 62
    pub counted : q.enqueue_pos ≡ q.dequeue_pos + length items
    pub bounded : length items ≤ q.capacity
    pub free : (p : ℕ) → q.enqueue_pos ≤ p → p < q.dequeue_pos + q.capacity → seq q p ≡ p
    pub full :
        (k : ℕ)
        → k < length items
        → (seq q (q.dequeue_pos + k) ≡ q.dequeue_pos + k + 1)
          × (task_at q (q.dequeue_pos + k) ≡ get_elem? items k)

  -- Both writes of an owner to its cell.
  abbrev pub both : Queue A → ℕ → Option A → ℕ → Queue A
  both q pos task n = set_sequence (set_storage q pos task) pos n

  both_ne :
      (q : Queue A) (pos p n : ℕ) (task : Option A)
      → (p % q.capacity == pos % q.capacity) ≡ false
      → cell (both q pos task n) p ≡ cell q p
  both_ne q pos p n task e =
      cell-put_ne (set_storage q pos task) pos p _ e ∙ cell-put_ne q pos p _ e

  both_here :
      (q : Queue A) (pos n : ℕ) (task : Option A)
      → cell (both q pos task n) pos ≡ record { sequence = n; storage = task }
  both_here q pos n task =
      cell-put (set_storage q pos task) pos _
      ∙ ap (λ (c : Cell A). record c { sequence = n }) (cell-put q pos _)

  pub enqueued-HoldsTasks :
      (v : A) (q : Queue A) (items : List A)
      → HoldsTasks q items
      → length items < q.capacity
      → q.enqueue_pos + 1 + q.capacity < 2 ^ 62
      → HoldsTasks
          (both
            (record q { enqueue_pos = next q.enqueue_pos })
            q.enqueue_pos
            (some v)
            (next q.enqueue_pos))
          (items ++ v ∷ [])
  enqueued-HoldsTasks v q items h room low = record {
    wide = h.wide;
    small = omega (arith, now, low);
    counted = omega (arith, now, h.counted, length-append items (v ∷ []));
    bounded = omega (arith, room, length-append items (v ∷ []));
    free = λ p k l.
        ap (λ (c : Cell A). c.sequence)
          (both_ne q' e p (next e) (some v) (
            slot_ne q.capacity p e (ground (arith, k, now)) (omega (arith, l, h.counted))
              (omega (arith, k, now))))
        ∙ h.free p (omega (arith, k, now)) l;
    full = λ k l. elim (dec_lt k (length items)) [
      | yes m ↦
          let apart = both_ne q' e (q.dequeue_pos + k) (next e) (some v) (
            slot_ne q.capacity (q.dequeue_pos + k) e (ground (arith, m, h.counted))
              (omega (arith, m, h.counted)) (omega (arith, room, h.counted))) in
          (
            ap (λ (c : Cell A). c.sequence) apart ∙ (h.full k m).0,
            ap (λ (c : Cell A). c.storage) apart
                ∙ (h.full k m).1
                ∙ sym (get_elem?-before items v k m),
          )
      | no m ↦
          let last : length items ≡ k = omega (arith, l, m, length-append items (v ∷ [])) in
          let end : q.dequeue_pos + k ≡ e = omega (arith, last, h.counted) in
          let here =
            ap (cell (both q' e (some v) (next e))) end ∙ both_here q' e (next e) (some v) in
          (
            ap (λ (c : Cell A). c.sequence) here ∙ now ∙ ap (λ (n : ℕ). n + 1) (sym end),
            ap (λ (c : Cell A). c.storage) here
                ∙ sym (get_elem?-last items v)
                ∙ ap (get_elem? (items ++ v ∷ [])) last,
          )
    ];
  }
    where
      e : ℕ
      e = q.enqueue_pos

      q' : Queue A
      q' = record q { enqueue_pos = next q.enqueue_pos }

      now : next q.enqueue_pos ≡ q.enqueue_pos + 1
      now = omega (arith, low)

  pub dequeued-HoldsTasks :
      (q : Queue A) (x : A) (items : List A)
      → HoldsTasks q (x ∷ items)
      → HoldsTasks
          (both
            (record q { dequeue_pos = next q.dequeue_pos })
            q.dequeue_pos
            none
            ((q.dequeue_pos + (q.capacity - 1) + 1) % 2 ^ 64))
          items
  dequeued-HoldsTasks q x items h = record {
    wide = h.wide;
    small = h.small;
    counted = omega (arith, now, h.counted);
    bounded = omega (arith, h.bounded);
    free = λ p k l. elim (dec_lt p (d + q.capacity)) [
      | yes m ↦
          ap (λ (c : Cell A). c.sequence)
            (both_ne q' d p n none (
              slot_ne q.capacity p d (ground (arith, k, h.counted)) m
                (omega (arith, k, h.counted))))
          ∙ h.free p k m
      | no m ↦
          let end : p ≡ d + q.capacity = omega (arith, l, m, now) in
          ap (seq (both q' d none n)) end
          ∙ seq_again (both q' d none n) d
          ∙ ap (λ (c : Cell A). c.sequence) (both_here q' d n none)
          ∙ omega (arith, end, h.small, h.counted, h.wide)
    ];
    full = λ k l.
        let more : suc k < length (x ∷ items) = omega (arith, l) in
        let at : next d + k ≡ d + suc k = omega (arith, now) in
        let apart =
          ap (cell (both q' d none n)) at
          ∙ both_ne q' d (d + suc k) n none (
              slot_ne q.capacity (d + suc k) d (ground arith) (omega (arith, more, h.bounded))
                (omega (arith, h.wide))) in
        (
          ap (λ (c : Cell A). c.sequence) apart ∙ (h.full (suc k) more).0 ∙ omega (arith, now),
          ap (λ (c : Cell A). c.storage) apart ∙ (h.full (suc k) more).1,
        );
  }
    where
      d : ℕ
      d = q.dequeue_pos

      q' : Queue A
      q' = record q { dequeue_pos = next q.dequeue_pos }

      n : ℕ
      n = (q.dequeue_pos + (q.capacity - 1) + 1) % 2 ^ 64

      now : next q.dequeue_pos ≡ q.dequeue_pos + 1
      now = omega (arith, h.small, h.counted)
