-- ===== src/TaskQueue/Calls.antt =====
-- A call of src/core/task_queue.cc by a thread that no other interrupts, access by access.
use nano_redis.Prelude.{
  ℕ, zero, Bool, suc, ◌+◌, ◌-◌, ◌%◌, ◌^◌, ◌≡◌, refl, ap, ◌∙◌, true, false, Option, none, some, List,
  [], ◌∷◌, ◌==◌, ==_iff,
}
use nano_redis.TaskQueue.{
  Queue, Pc, enq_start, enq_loaded, enq_seen, enq_done, deq_start, deq_loaded, deq_seen, deq_done,
  attempts, enqueued, dequeued, next, is_behind, advance, alone, try_enqueue, try_dequeue,
  set_storage, set_sequence,
}
use nano_redis.TaskQueue.Invariant.{seq, task_at}

-- There are two accesses or more.
attempts-more :
    (failures : ℕ)
    → (a : Bool) × (b : Bool) × (flags : List Bool) × (attempts failures ≡ a ∷ b ∷ flags)
unfolding attempts
attempts-more zero = (false, false, false ∷ false ∷ false ∷ [], refl)
attempts-more (suc failures) = (true, true, true ∷ attempts failures, refl)

module _ {A : Type 0} where
  -- A call that has returned stays so.
  alone-enq_done :
      (flags : List Bool) (ok : Bool) (q : Queue A)
      → alone flags (q, enq_done ok) ≡ (q, enq_done ok)
  unfolding alone advance
  alone-enq_done [] ok q = refl
  alone-enq_done (weak ∷ flags) ok q = alone-enq_done flags ok q

  alone-deq_done :
      (flags : List Bool) (task : Option A) (q : Queue A)
      → alone flags (q, deq_done task) ≡ (q, deq_done task)
  unfolding alone advance
  alone-deq_done [] task q = refl
  alone-deq_done (weak ∷ flags) task q = alone-deq_done flags task q

  enq_loaded-free :
      (weak : Bool) (v : A) (q : Queue A)
      → seq q q.enqueue_pos ≡ q.enqueue_pos
      → advance weak q (enq_loaded v q.enqueue_pos) ≡ (q, enq_seen v q.enqueue_pos)
  unfolding advance
  enq_loaded-free weak v q h = rw ((==_iff (seq q q.enqueue_pos) q.enqueue_pos).1 h) refl

  enq_loaded-full :
      (weak : Bool) (v : A) (q : Queue A)
      → (seq q q.enqueue_pos == q.enqueue_pos) ≡ false
      → is_behind (seq q q.enqueue_pos) q.enqueue_pos ≡ true
      → advance weak q (enq_loaded v q.enqueue_pos) ≡ (q, enq_done false)
  unfolding advance
  enq_loaded-full weak v q h k = rw (h, k) refl

  enq_seen-weak :
      (v : A) (q : Queue A) → advance true q (enq_seen v q.enqueue_pos) ≡ (q, enq_start v)
  unfolding advance
  enq_seen-weak v q = rw ((==_iff q.enqueue_pos q.enqueue_pos).1 refl) refl

  deq_loaded-full :
      (weak : Bool) (q : Queue A)
      → seq q q.dequeue_pos ≡ next q.dequeue_pos
      → advance weak q (deq_loaded q.dequeue_pos) ≡ (q, deq_seen q.dequeue_pos)
  unfolding advance
  deq_loaded-full weak q h = rw ((==_iff (seq q q.dequeue_pos) (next q.dequeue_pos)).1 h) refl

  deq_loaded-empty :
      (weak : Bool) (q : Queue A)
      → (seq q q.dequeue_pos == next q.dequeue_pos) ≡ false
      → is_behind (seq q q.dequeue_pos) (next q.dequeue_pos) ≡ true
      → advance weak q (deq_loaded q.dequeue_pos) ≡ (q, deq_done none)
  unfolding advance
  deq_loaded-empty weak q h k = rw (h, k) refl

  deq_seen-weak : (q : Queue A) → advance true q (deq_seen q.dequeue_pos) ≡ (q, deq_start)
  unfolding advance
  deq_seen-weak q = rw ((==_iff q.dequeue_pos q.dequeue_pos).1 refl) refl

  pub enqueue_free :
      (failures : ℕ) (v : A) (q : Queue A)
      → seq q q.enqueue_pos ≡ q.enqueue_pos
      → (let q' = record q { enqueue_pos = next q.enqueue_pos } in
          try_enqueue failures v q
          ≡ some (
            set_sequence (set_storage q' q.enqueue_pos (some v)) q.enqueue_pos (next q.enqueue_pos),
            true,
          ))
  unfolding try_enqueue alone attempts advance
  enqueue_free zero v q h =
      rw
        (
          (==_iff (seq q q.enqueue_pos) q.enqueue_pos).1 h,
          (==_iff q.enqueue_pos q.enqueue_pos).1 refl,
        )
        refl
  enqueue_free (suc failures) v q h =
      ap (λ (t : Queue A × Pc A). enqueued (alone (true ∷ attempts failures) t))
        (enq_loaded-free true v q h)
      ∙ ap (λ (t : Queue A × Pc A). enqueued (alone (attempts failures) t)) (enq_seen-weak v q)
      ∙ enqueue_free failures v q h

  pub enqueue_full :
      (failures : ℕ) (v : A) (q : Queue A)
      → (seq q q.enqueue_pos == q.enqueue_pos) ≡ false
      → is_behind (seq q q.enqueue_pos) q.enqueue_pos ≡ true
      → try_enqueue failures v q ≡ some (q, false)
  unfolding try_enqueue alone advance
  enqueue_full failures v q h k =
      let (a, b, flags, e) = attempts-more failures in
      ap (λ (l : List Bool). enqueued (alone l (q, enq_start v))) e
      ∙ ap (λ (t : Queue A × Pc A). enqueued (alone flags t)) (enq_loaded-full b v q h k)
      ∙ ap enqueued (alone-enq_done flags false q)

  pub dequeue_full :
      (failures : ℕ) (q : Queue A)
      → seq q q.dequeue_pos ≡ next q.dequeue_pos
      → (let pos = q.dequeue_pos in
          let q' = set_storage (record q { dequeue_pos = next pos }) pos none in
          try_dequeue failures q
          ≡ some (set_sequence q' pos ((pos + (q.capacity - 1) + 1) % 2 ^ 64), task_at q pos))
  unfolding try_dequeue alone attempts advance
  dequeue_full zero q h =
      rw
        (
          (==_iff (seq q q.dequeue_pos) (next q.dequeue_pos)).1 h,
          (==_iff q.dequeue_pos q.dequeue_pos).1 refl,
        )
        refl
  dequeue_full (suc failures) q h =
      ap (λ (t : Queue A × Pc A). dequeued (alone (true ∷ attempts failures) t))
        (deq_loaded-full true q h)
      ∙ ap (λ (t : Queue A × Pc A). dequeued (alone (attempts failures) t)) (deq_seen-weak q)
      ∙ dequeue_full failures q h

  pub dequeue_empty :
      (failures : ℕ) (q : Queue A)
      → (seq q q.dequeue_pos == next q.dequeue_pos) ≡ false
      → is_behind (seq q q.dequeue_pos) (next q.dequeue_pos) ≡ true
      → try_dequeue failures q ≡ some (q, none)
  unfolding try_dequeue alone advance
  dequeue_empty failures q h k =
      let (a, b, flags, e) = attempts-more failures in
      ap (λ (l : List Bool). dequeued (alone l (q, deq_start))) e
      ∙ ap (λ (t : Queue A × Pc A). dequeued (alone flags t)) (deq_loaded-empty b q h k)
      ∙ ap dequeued (alone-deq_done flags none q)
