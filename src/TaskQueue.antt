-- ===== src/TaskQueue.antt =====
-- src/core/task_queue.cc, include/core/task_queue.h: the ring of cells, for many producers and many
-- consumers. A thread takes one access of shared memory at a time, in any order with the others: the
-- memory is taken for sequentially consistent. A task is a value; what runs it is not looked at.
pub mod Capacity
pub mod Threads
pub mod Invariant
pub mod Others
pub mod Writes
pub mod Seen
pub mod Claims
pub mod Accesses
pub mod Turns
pub mod Safety
pub mod Covered
pub mod Bounded
pub mod Calls
pub mod Alone
use nano_redis.Prelude.{
  ℕ, zero, suc, ◌+◌, ◌-◌, ◌*◌, ◌%◌, ◌^◌, Bool, true, false, not, ◌&&◌, Option, none, some, List, [],
  ◌∷◌, ◌++◌, length, ltb, leb, ◌==◌, if◌then◌else◌,
}

pub record Cell (A : Type 0) : Type 0 where
  pub sequence : ℕ
  -- `none` where no callback is constructed
  pub storage : Option A

pub record Queue (A : Type 0) : Type 0 where
  pub buffer : ℕ → Cell A
  pub capacity : ℕ
  pub enqueue_pos : ℕ
  pub dequeue_pos : ℕ

abbrev pub min_capacity : ℕ
min_capacity = 2

-- while (p < x) p <<= 1: `none` when the fuel does not suffice
unfoldable pub double_until : ℕ → ℕ → ℕ → Option ℕ
double_until zero x p = none
double_until (suc fuel) x p =
    let rest = double_until fuel x (p * 2 % 2 ^ 64) in if ltb p x then rest else some p

unfoldable pub round_up_power_of_two : ℕ → Option ℕ
unfolding double_until
round_up_power_of_two x = if ltb x min_capacity then some min_capacity else double_until 64 x 1

-- `pos + 1` and the other sums of positions wrap.
abbrev pub next : ℕ → ℕ
next pos = (pos + 1) % 2 ^ 64

-- `static_cast<intptr_t>(seq) - static_cast<intptr_t>(pos) < 0`
abbrev pub is_behind : ℕ → ℕ → Bool
is_behind seq pos = leb (2 ^ 63) ((seq + 2 ^ 64 - pos) % 2 ^ 64)

-- Where a thread stands, with the locals that are live there: the positions that it has read, the task.
pub data Pc (A : Type 0) : Type 0 where
  idle : Pc A
  enq_start : A → Pc A
  enq_loaded : A → ℕ → Pc A
  enq_seen : A → ℕ → Pc A
  enq_claimed : A → ℕ → Pc A
  enq_stored : A → ℕ → Pc A
  enq_done : Bool → Pc A
  deq_start : Pc A
  deq_loaded : ℕ → Pc A
  deq_seen : ℕ → Pc A
  deq_claimed : ℕ → Pc A
  deq_moved : ℕ → Option A → Pc A
  deq_done : Option A → Pc A

-- The compare-exchange fails for no reason in so many rounds of the loop, each of three accesses, and
-- then no more.
unfoldable pub attempts : ℕ → List Bool
attempts zero = false ∷ false ∷ false ∷ false ∷ false ∷ []
attempts (suc failures) = true ∷ true ∷ true ∷ attempts failures

module _ {A : Type 0} where
  -- The constructor, with a capacity from `RoundUpPowerOfTwo`.
  unfoldable pub new_queue : ℕ → Queue A
  new_queue capacity = record {
    buffer = λ i. record { sequence = i; storage = none };
    capacity = capacity;
    enqueue_pos = 0;
    dequeue_pos = 0;
  }

  -- `buffer[pos & buffer_mask]`: the capacity is a power of two, and the mask one less.
  abbrev pub cell : Queue A → ℕ → Cell A
  cell q pos = q.buffer (pos % q.capacity)

  abbrev pub put : Queue A → ℕ → Cell A → Queue A
  put q pos c = record q { buffer = λ i. if i == pos % q.capacity then c else q.buffer i }

  abbrev pub set_sequence : Queue A → ℕ → ℕ → Queue A
  set_sequence q pos seq = put q pos (record (cell q pos) { sequence = seq })

  abbrev pub set_storage : Queue A → ℕ → Option A → Queue A
  set_storage q pos task = put q pos (record (cell q pos) { storage = task })

  -- The next access of a thread in `TryEnqueue` or `TryDequeue`. With `weak` a compare-exchange fails
  -- for no reason, as `compare_exchange_weak` may.
  unfoldable pub advance : Bool → Queue A → Pc A → Queue A × Pc A
  advance weak q (enq_start v) = (q, enq_loaded v q.enqueue_pos)
  advance weak q (enq_loaded v pos) =
      let seq = (cell q pos).sequence in
      (
        q,
        if seq == pos
            then enq_seen v pos
            else if is_behind seq pos
            then enq_done false
            else enq_start v,
      )
  advance weak q (enq_seen v pos) =
      if (q.enqueue_pos == pos) && not weak
      then (record q { enqueue_pos = next pos }, enq_claimed v pos)
      else (q, enq_start v)
  advance weak q (enq_claimed v pos) = (set_storage q pos (some v), enq_stored v pos)
  advance weak q (enq_stored v pos) = (set_sequence q pos (next pos), enq_done true)
  advance weak q deq_start = (q, deq_loaded q.dequeue_pos)
  advance weak q (deq_loaded pos) =
      let seq = (cell q pos).sequence in
      (
        q,
        if seq == next pos
            then deq_seen pos
            else if is_behind seq (next pos)
            then deq_done none
            else deq_start,
      )
  advance weak q (deq_seen pos) =
      if (q.dequeue_pos == pos) && not weak
      then (record q { dequeue_pos = next pos }, deq_claimed pos)
      else (q, deq_start)
  advance weak q (deq_claimed pos) = (set_storage q pos none, deq_moved pos (cell q pos).storage)
  advance weak q (deq_moved pos task) =
      (set_sequence q pos ((pos + (q.capacity - 1) + 1) % 2 ^ 64), deq_done task)
  advance weak q pc = (q, pc)

  unfoldable pub empty : Queue A → Bool
  empty q = is_behind (cell q q.dequeue_pos).sequence (next q.dequeue_pos)

  -- The outcome of a call, where it has returned.
  abbrev pub enqueued : Queue A × Pc A → Option (Queue A × Bool)
  enqueued (q, enq_done ok) = some (q, ok)
  enqueued _ = none

  abbrev pub dequeued : Queue A × Pc A → Option (Queue A × Option A)
  dequeued (q, deq_done task) = some (q, task)
  dequeued _ = none

  -- A thread alone: one access for each flag, which says whether a compare-exchange fails for no
  -- reason.
  unfoldable pub alone : List Bool → Queue A × Pc A → Queue A × Pc A
  unfolding advance
  alone [] s = s
  alone (weak ∷ flags) (q, pc) = alone flags (advance weak q pc)

  -- A call by one thread alone takes five accesses at most behind the rounds that fail.
  unfoldable pub try_enqueue : ℕ → A → Queue A → Option (Queue A × Bool)
  unfolding alone attempts
  try_enqueue failures v q = enqueued (alone (attempts failures) (q, enq_start v))

  unfoldable pub try_dequeue : ℕ → Queue A → Option (Queue A × Option A)
  unfolding alone attempts
  try_dequeue failures q = dequeued (alone (attempts failures) (q, deq_start))
