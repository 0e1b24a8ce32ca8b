-- ===== src/TaskQueue/Invariant.antt =====
-- What holds of the cells and the threads of src/core/task_queue.cc between two accesses. The positions
-- from the dequeue position on, one for each cell, form the window.
use nano_redis.Prelude.{
  ℕ, ◌+◌, ◌/◌, ◌%◌, ◌≤◌, ◌<◌, ◌≡◌, ◌⊎◌, arith, Bool, true, false, Option, some, List, [], ◌∷◌,
  length, get_elem?, ◌==◌, Bool-cases, inl, inr, ==_iff, ◌||◌,
}
use native.Mathlib.Decide.{dec_lt}
use native.Mathlib.Nat.{mod-add-div', mul-le-mul_right}
use nano_redis.TaskQueue.{
  Queue, Pc, enq_loaded, enq_seen, enq_claimed, enq_stored, deq_loaded, deq_seen, deq_claimed,
  deq_moved, cell,
}
use nano_redis.TaskQueue.Threads.{System}

-- Two positions less than a capacity apart have different cells.
pub slot_apart : (c p q : ℕ) → p < q → q < p + c → (p % c == q % c) ≡ false
slot_apart c p q h k = elim (Bool-cases (p % c == q % c)) [
  | inr e ↦ e
  | inl e ↦
      let same = (==_iff (p % c) (q % c)).0 e in
      elim (dec_lt (p / c) (q / c)) [
        | yes l ↦
            let wide = mul-le-mul_right c l in
            absurd (omega (arith, same, wide, mod-add-div' p c, mod-add-div' q c))
        | no m ↦
            let more : q / c ≤ p / c = omega arith in
            let wide = mul-le-mul_right c more in
            absurd (omega (arith, same, wide, mod-add-div' p c, mod-add-div' q c))
      ]
]

pub slot_ne : (c p q : ℕ) → (p == q) ≡ false → p < q + c → q < p + c → (p % c == q % c) ≡ false
slot_ne c p q e h k = elim (dec_lt p q) [
  | yes l ↦ slot_apart c p q l k
  | no m ↦ ground (arith, slot_apart c q p (ground (arith, e)) h)
]

module _ {A : Type 0} where
  abbrev pub seq : Queue A → ℕ → ℕ
  seq q p = (cell q p).sequence

  abbrev pub task_at : Queue A → ℕ → Option A
  task_at q p = (cell q p).storage

  -- Was something moved out of the position?
  abbrev pub is_moved : ℕ → List (ℕ × Option A) → Bool
  is_moved p [] = false
  is_moved p (e ∷ l) = (e.0 == p) || is_moved p l

  -- The thread has the cell of the position to itself.
  abbrev pub owns : Pc A → ℕ → Bool
  owns (enq_claimed v pos) p = pos == p
  owns (enq_stored v pos) p = pos == p
  owns (deq_claimed pos) p = pos == p
  owns (deq_moved pos task) p = pos == p
  owns _ p = false

  -- The cell of a position of the window: it is claimed by a producer or free, has a task, or is
  -- claimed by a consumer of the position before.
  pub record CellOk (q : Queue A) (claims : List A) (p : ℕ) : Type 0 where
    pub turns :
        (seq q p ≡ p)
        ⊎ ((p < q.enqueue_pos) × (seq q p ≡ p + 1))
        ⊎ ((q.enqueue_pos ≤ p) × (seq q p + q.capacity ≡ p + 1))
    pub has_task : seq q p ≡ p + 1 → p < q.enqueue_pos → task_at q p ≡ get_elem? claims p

  -- What the locals of a thread say of the queue.
  abbrev pub IsSound : Queue A → List A → List (ℕ × Option A) → Pc A → Type 0
  IsSound q claims moves (enq_loaded v pos) = pos ≤ q.enqueue_pos
  IsSound q claims moves (enq_seen v pos) =
      (pos ≤ q.enqueue_pos) × (pos ≡ q.enqueue_pos → seq q pos ≡ pos)
  IsSound q claims moves (enq_claimed v pos) =
      (q.dequeue_pos ≤ pos)
      × (pos < q.enqueue_pos)
      × (seq q pos ≡ pos)
      × (get_elem? claims pos ≡ some v)
  IsSound q claims moves (enq_stored v pos) =
      (q.dequeue_pos ≤ pos)
      × (pos < q.enqueue_pos)
      × (seq q pos ≡ pos)
      × (get_elem? claims pos ≡ some v)
      × (task_at q pos ≡ some v)
  IsSound q claims moves (deq_loaded pos) = pos ≤ q.dequeue_pos
  IsSound q claims moves (deq_seen pos) =
      (pos ≤ q.dequeue_pos) × (pos ≡ q.dequeue_pos → seq q pos ≡ pos + 1)
  IsSound q claims moves (deq_claimed pos) =
      (pos < q.dequeue_pos)
      × (q.enqueue_pos ≤ pos + q.capacity)
      × (seq q pos ≡ pos + 1)
      × (task_at q pos ≡ get_elem? claims pos)
      × (is_moved pos moves ≡ false)
  IsSound q claims moves (deq_moved pos task) =
      (pos < q.dequeue_pos)
      × (q.enqueue_pos ≤ pos + q.capacity)
      × (seq q pos ≡ pos + 1)
      × (task ≡ get_elem? claims pos)
  IsSound q claims moves _ = Unit

  -- What has been moved out: of each position once, the task that was claimed for it.
  abbrev pub AreRight : ℕ → List A → List (ℕ × Option A) → Type 0
  AreRight bound claims [] = Unit
  AreRight bound claims (e ∷ l) =
      (e.0 < bound)
      × (e.1 ≡ get_elem? claims e.0)
      × (is_moved e.0 l ≡ false)
      × AreRight bound claims l

  pub record Inv (capacity : ℕ) (s : System A) : Type 0 where
    pub fixed : s.queue.capacity ≡ capacity
    pub counted : s.queue.enqueue_pos ≡ length s.claims
    pub ordered : s.queue.dequeue_pos ≤ s.queue.enqueue_pos
    pub bounded : s.queue.enqueue_pos ≤ s.queue.dequeue_pos + capacity
    pub cells :
        (p : ℕ)
        → s.queue.dequeue_pos ≤ p
        → p < s.queue.dequeue_pos + capacity
        → CellOk s.queue s.claims p
    pub sound : (i : ℕ) → IsSound s.queue s.claims s.moves (s.pcs i)
    pub unique : (i j p : ℕ) → owns (s.pcs i) p ≡ true → owns (s.pcs j) p ≡ true → i ≡ j
    pub right : AreRight s.queue.dequeue_pos s.claims s.moves
