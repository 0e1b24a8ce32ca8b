-- ===== src/TaskQueue/Alone.antt =====
-- The calls of src/core/task_queue.cc by a thread that no other interrupts, as a bounded queue.
use nano_redis.Prelude.{
  ℕ, ◌+◌, ◌-◌, ◌%◌, ◌^◌, ◌<◌, ◌≡◌, ◌⊎◌, refl, ap, ◌∙◌, sym, arith, true, false, Option, none, some,
  List, [], ◌∷◌, ◌++◌, length, ◌==◌, inl, inr,
}
use native.Mathlib.Decide.{dec_lt}
use nano_redis.TaskQueue.{Queue, next, try_enqueue, try_dequeue, empty}
use nano_redis.TaskQueue.Invariant.{seq, task_at}
use nano_redis.TaskQueue.Others.{seq_again}
use nano_redis.TaskQueue.Bounded.{HoldsTasks, both, enqueued-HoldsTasks, dequeued-HoldsTasks}
use nano_redis.TaskQueue.Calls.{enqueue_free, enqueue_full, dequeue_full, dequeue_empty}

module _ {A : Type 0} where
  -- `TryEnqueue` that no other thread interrupts, on a queue that has the tasks `items`, before the
  -- positions come near 2^62, and with a compare-exchange that fails for no reason any finite
  -- number of times: it ends, after at most three accesses for each such failure and five more,
  -- with true and the task behind the others where there is room, and with false and the queue as
  -- it was where there is none.
  pub try_enqueue_lem :
      (failures : ℕ) (v : A) (q : Queue A) (items : List A)
      → HoldsTasks q items
      → q.enqueue_pos + 1 + q.capacity < 2 ^ 62
      → ((q' : Queue A) × (try_enqueue failures v q ≡ some (q', true))
          × HoldsTasks q' (items ++ v ∷ [])
          × (length items < q.capacity))
        ⊎ ((try_enqueue failures v q ≡ some (q, false)) × (length items ≡ q.capacity))
  try_enqueue_lem failures v q items h low = elim (dec_lt (length items) q.capacity) [
    | yes l ↦ inl (
      _,
      enqueue_free failures v q (h.free q.enqueue_pos (omega arith) (omega (arith, l, h.counted))),
      enqueued-HoldsTasks v q items h l low,
      l,
    )
    | no m ↦
        let none_left : length items ≡ q.capacity = omega (arith, m, h.bounded) in
        let end : q.enqueue_pos ≡ q.dequeue_pos + q.capacity =
          omega (arith, none_left, h.counted) in
        let first : seq q q.enqueue_pos ≡ q.dequeue_pos + 1 =
          ap (seq q) end
          ∙ seq_again q q.dequeue_pos
          ∙ ap (seq q) (omega arith)
          ∙ (h.full 0 (omega (arith, none_left, h.wide))).0
          ∙ omega arith in
        inr (
          enqueue_full failures v q (ground (arith, first, end, h.wide))
              (ground (arith, first, end, h.wide, h.small)),
          none_left,
        )
  ]

  -- `TryDequeue` that no other thread interrupts, on a queue that has the tasks `items`, before the
  -- positions come near 2^62, and with a compare-exchange that fails for no reason any finite
  -- number of times: it ends, after at most three accesses for each such failure and five more,
  -- with nothing where there is no task, and else with the first task, which is then gone.
  pub try_dequeue_lem :
      (failures : ℕ) (q : Queue A) (items : List A)
      → HoldsTasks q items
      → ((try_dequeue failures q ≡ some (q, none)) × (items ≡ []))
        ⊎ ((q' : Queue A) × (x : A) × (rest : List A) × (try_dequeue failures q ≡ some (q', some x))
            × (items ≡ x ∷ rest)
            × HoldsTasks q' rest)
  try_dequeue_lem failures q [] h =
      let free = h.free q.dequeue_pos (omega (arith, h.counted)) (omega (arith, h.wide)) in
      inl (
        dequeue_empty failures q (ground (arith, free, h.small, h.counted))
            (ground (arith, free, h.small, h.counted)),
        refl,
      )
  try_dequeue_lem failures q (x ∷ rest) h =
      let here : q.dequeue_pos + 0 ≡ q.dequeue_pos = omega arith in
      let f = h.full 0 (omega arith) in
      let ready : seq q q.dequeue_pos ≡ next q.dequeue_pos =
        ap (seq q) (sym here) ∙ f.0 ∙ omega (arith, h.small, h.counted) in
      let q' : Queue A =
        both (record q { dequeue_pos = next q.dequeue_pos }) q.dequeue_pos none
          ((q.dequeue_pos + (q.capacity - 1) + 1) % 2 ^ 64) in
      let task : task_at q q.dequeue_pos ≡ some x = ap (task_at q) (sym here) ∙ f.1 in
      inr (
        _,
        x,
        rest,
        dequeue_full failures q ready ∙ ap (λ (t : Option A). some (q', t)) task,
        refl,
        dequeued-HoldsTasks q x rest h,
      )

  pub empty_lem :
      (q : Queue A) (items : List A) → HoldsTasks q items → empty q ≡ (length items == 0)
  unfolding empty
  empty_lem q [] h =
      let free = h.free q.dequeue_pos (omega (arith, h.counted)) (omega (arith, h.wide)) in
      ground (arith, free, h.small, h.counted)
  empty_lem q (x ∷ rest) h =
      let here : q.dequeue_pos + 0 ≡ q.dequeue_pos = omega arith in
      let ready = ap (seq q) (sym here) ∙ (h.full 0 (omega arith)).0 in
      ground (arith, ready, h.small, h.counted)
