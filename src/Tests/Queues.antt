-- ===== src/Tests/Queues.antt =====
-- A queue of two cells: thread 0 adds the task 7 and thread 1 takes it.
use nano_redis.Prelude.{
  ℕ, zero, suc, ◌+◌, ◌^◌, ◌≤◌, ◌<◌, ◌≡◌, ◌⊎◌, refl, sym, ap, ◌∙◌, arith, true, false, none, some,
  List, [], ◌∷◌, length, get_elem?, ◌==◌, if◌then◌else◌,
}
use nano_redis.TaskQueue.{
  Queue, new_queue, advance, round_up_power_of_two, try_enqueue, try_dequeue,
}
use nano_redis.TaskQueue.Capacity.{round_up_power_of_two_lem}
use nano_redis.TaskQueue.Threads.{
  System, Reach, start, later, call_enqueue, call_dequeue, take_turn,
}
use nano_redis.TaskQueue.Invariant.{task_at, is_moved, AreRight}
use nano_redis.TaskQueue.Safety.{exclusive, delivered}
use nano_redis.TaskQueue.Covered.{none_lost}
use nano_redis.TaskQueue.Bounded.{HoldsTasks}
use nano_redis.TaskQueue.Alone.{try_enqueue_lem, try_dequeue_lem}

record Run : Type 0 where
  last : System ℕ
  reach : Reach 2 last

-- Thread `i` takes `n` turns.
abbrev turns : ℕ → ℕ → Run → Run
turns i zero r = r
turns i (suc n) r = turns i n (record { last = _; reach = later r.reach (take_turn i false) })

abbrev begun : Run
begun = record { last = _; reach = later start (call_enqueue 0 7 refl) }

-- Thread 0 has claimed position 0 and written the task; its cell is not published yet.
abbrev claimed_run : Run
claimed_run = turns 0 4 begun

abbrev added : Run
added = turns 0 1 claimed_run

abbrev taken : Run
taken = turns 1 5 (record { last = _; reach = later added.reach (call_dequeue 1 refl) })

taken_queue : (taken.last.claims ≡ 7 ∷ []) × (taken.last.moves ≡ (0, some 7) ∷ [])
unfolding advance new_queue
taken_queue = (refl, refl)

delivered_example :
    (taken.last.queue.enqueue_pos ≡ length taken.last.claims)
    × (taken.last.queue.dequeue_pos ≤ taken.last.queue.enqueue_pos)
    × (taken.last.queue.enqueue_pos ≤ taken.last.queue.dequeue_pos + 2)
    × AreRight taken.last.queue.dequeue_pos taken.last.claims taken.last.moves
unfolding advance new_queue
delivered_example = delivered 2 (omega arith) taken.reach (omega arith)

none_lost_example : is_moved 0 taken.last.moves ≡ true
unfolding advance new_queue
none_lost_example =
    none_lost 2 (omega arith) taken.reach (omega arith) (λ i. ground arith) 0 (omega arith)

exclusive_example : ◌≡◌ {A = ℕ} 0 0
unfolding advance new_queue
exclusive_example = exclusive 2 (omega arith) 0 0 0 0 claimed_run.reach (omega arith) refl refl refl

round_up_power_of_two_lem_example :
    (bits : ℕ) × (round_up_power_of_two 100 ≡ some (2 ^ bits))
    × (100 ≤ 2 ^ bits)
    × (2 ≤ 2 ^ bits)
    × ((other : ℕ) → 100 ≤ 2 ^ other → 2 ≤ 2 ^ other → 2 ^ bits ≤ 2 ^ other)
round_up_power_of_two_lem_example = round_up_power_of_two_lem 100 (omega arith)

abbrev one_task : Queue ℕ
one_task = record {
  buffer = λ i. record { sequence = 1; storage = if i == 0 then some 7 else none };
  capacity = 2;
  enqueue_pos = 1;
  dequeue_pos = 0;
}

abbrev tasks : List ℕ
tasks = 7 ∷ []

one_task-HoldsTasks : HoldsTasks one_task (7 ∷ [])
one_task-HoldsTasks = record {
  wide = omega arith;
  small = omega arith;
  counted = refl;
  bounded = omega arith;
  free = λ p k l. omega (arith, k, l);
  full = λ k l.
      let first : 0 ≡ k = omega (arith, l) in
      (
        omega (arith, first),
        ap (λ (n : ℕ). task_at one_task (0 + n)) (sym first) ∙ ap (get_elem? (7 ∷ [])) first,
      );
}

try_enqueue_lem_example :
    ((q : Queue ℕ) × (try_enqueue 2 8 one_task ≡ some (q, true))
      × HoldsTasks q (7 ∷ 8 ∷ [])
      × (length tasks < 2))
    ⊎ ((try_enqueue 2 8 one_task ≡ some (one_task, false)) × (length tasks ≡ 2))
try_enqueue_lem_example = try_enqueue_lem 2 8 one_task tasks one_task-HoldsTasks (omega arith)

try_dequeue_lem_example :
    ((try_dequeue 2 one_task ≡ some (one_task, none)) × (tasks ≡ []))
    ⊎ ((q : Queue ℕ) × (x : ℕ) × (rest : List ℕ) × (try_dequeue 2 one_task ≡ some (q, some x))
        × (tasks ≡ x ∷ rest)
        × HoldsTasks q rest)
try_dequeue_lem_example = try_dequeue_lem 2 one_task tasks one_task-HoldsTasks
