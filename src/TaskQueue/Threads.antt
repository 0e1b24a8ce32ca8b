-- ===== src/TaskQueue/Threads.antt =====
-- Threads over one queue of src/core/task_queue.cc, in any order. The system also remembers, beside the
-- state of the source, which tasks producers have claimed a position for, in order, and what consumers
-- have moved out of which position.
use nano_redis.Prelude.{ℕ, Bool, true, false, Option, List, [], ◌∷◌, ◌++◌, ◌==◌, ◌≡◌, if◌then◌else◌}
use nano_redis.TaskQueue.{
  Queue, new_queue, Pc, idle, enq_start, enq_seen, enq_claimed, enq_done, deq_start, deq_claimed,
  deq_moved, deq_done, advance,
}

pub record System (A : Type 0) : Type 0 where
  pub queue : Queue A
  pub pcs : ℕ → Pc A
  pub claims : List A
  pub moves : List (ℕ × Option A)

module _ {A : Type 0} where
  -- A thread between two calls.
  abbrev pub rests : Pc A → Bool
  rests idle = true
  rests (enq_done ok) = true
  rests (deq_done task) = true
  rests _ = false

  abbrev pub is_claim : Pc A → Bool
  is_claim (enq_claimed v pos) = true
  is_claim _ = false

  abbrev pub claimed : Pc A → Pc A → List A → List A
  claimed (enq_seen v pos) pc l = if is_claim pc then l ++ v ∷ [] else l
  claimed _ pc l = l

  abbrev pub moved : Pc A → Pc A → List (ℕ × Option A) → List (ℕ × Option A)
  moved (deq_claimed pos) (deq_moved p task) l = (p, task) ∷ l
  moved _ _ l = l

  abbrev pub place : (ℕ → Pc A) → ℕ → Pc A → ℕ → Pc A
  place pcs i pc j = if j == i then pc else pcs j

  -- Thread `i`, which stands at `pc`, takes its next access.
  abbrev pub turn_from : Pc A → ℕ → Bool → System A → System A
  turn_from pc i weak s =
      let (q, pc') = advance weak s.queue pc in
      record {
        queue = q;
        pcs = place s.pcs i pc';
        claims = claimed pc pc' s.claims;
        moves = moved pc pc' s.moves;
      }

  abbrev pub turn : ℕ → Bool → System A → System A
  turn i weak s = turn_from (s.pcs i) i weak s

  pub data Step (s : System A) : System A → Type 0 where
    call_enqueue :
        (i : ℕ) (v : A)
        → rests (s.pcs i) ≡ true
        → Step s (record s { pcs = place s.pcs i (enq_start v) })
    call_dequeue :
        (i : ℕ) → rests (s.pcs i) ≡ true → Step s (record s { pcs = place s.pcs i deq_start })
    take_turn : (i : ℕ) (weak : Bool) → Step s (turn i weak s)

  abbrev pub start_system : ℕ → System A
  start_system capacity = record {
    queue = new_queue capacity;
    pcs = λ i. idle;
    claims = [];
    moves = [];
  }

  pub data Reach (capacity : ℕ) : System A → Type 0 where
    start : Reach capacity (start_system capacity)
    later : {s t : System A} → Reach capacity s → Step s t → Reach capacity t
