-- ===== src/TaskQueue/Seen.antt =====
-- What a compare-exchange of src/core/task_queue.cc that succeeds leaves of what the other threads know.
use nano_redis.Prelude.{
  ℕ, ◌+◌, ◌≤◌, ◌<◌, ◌≡◌, ◌⊎◌, refl, ap, ◌∙◌, sym, arith, true, false, Option, List, [], ◌∷◌, ◌++◌,
  length, ==_iff, inl, inr,
}
use native.Mathlib.Decide.{dec_lt}
use nano_redis.TaskQueue.{
  Queue, Pc, idle, enq_start, enq_loaded, enq_seen, enq_claimed, enq_stored, enq_done, deq_start,
  deq_loaded, deq_seen, deq_claimed, deq_moved, deq_done,
}
use nano_redis.TaskQueue.Invariant.{seq, is_moved, owns, IsSound, AreRight}
use nano_redis.TaskQueue.Others.{get_elem?-before, seq_again}

module _ {A : Type 0} where
  -- What an owner owns lies below the enqueue position, and is not at the dequeue position ready; it is in one of the last positions, as many as there are cells.
  pub owned :
      (q : Queue A) (claims : List A) (moves : List (ℕ × Option A)) (pc : Pc A) (p : ℕ)
      → q.dequeue_pos ≤ q.enqueue_pos
      → q.enqueue_pos ≤ q.dequeue_pos + q.capacity
      → IsSound q claims moves pc
      → owns pc p ≡ true
      → (p < q.enqueue_pos)
        × ((p < q.dequeue_pos) ⊎ (seq q p ≡ p))
        × (q.enqueue_pos ≤ p + q.capacity)
  owned q claims moves (enq_claimed v pos) p d b h o =
      let same = (==_iff pos p).0 o in
      (
        omega (arith, same, h.1),
        inr (sym (ap (seq q) same) ∙ h.2 ∙ same),
        omega (arith, same, h.0, b),
      )
  owned q claims moves (enq_stored v pos) p d b h o =
      let same = (==_iff pos p).0 o in
      (
        omega (arith, same, h.1),
        inr (sym (ap (seq q) same) ∙ h.2 ∙ same),
        omega (arith, same, h.0, b),
      )
  owned q claims moves (deq_claimed pos) p d b h o =
      let same = (==_iff pos p).0 o in
      (omega (arith, same, h.0, d), inl (omega (arith, same, h.0)), omega (arith, same, h.1))
  owned q claims moves (deq_moved pos t) p d b h o =
      let same = (==_iff pos p).0 o in
      (omega (arith, same, h.0, d), inl (omega (arith, same, h.0)), omega (arith, same, h.1))
  owned q claims moves idle p d b h o = absurd (ground (arith, o))
  owned q claims moves (enq_start v) p d b h o = absurd (ground (arith, o))
  owned q claims moves (enq_loaded v pos) p d b h o = absurd (ground (arith, o))
  owned q claims moves (enq_seen v pos) p d b h o = absurd (ground (arith, o))
  owned q claims moves (enq_done ok) p d b h o = absurd (ground (arith, o))
  owned q claims moves deq_start p d b h o = absurd (ground (arith, o))
  owned q claims moves (deq_loaded pos) p d b h o = absurd (ground (arith, o))
  owned q claims moves (deq_seen pos) p d b h o = absurd (ground (arith, o))
  owned q claims moves (deq_done t) p d b h o = absurd (ground (arith, o))

  pub AreRight-append :
      (bound : ℕ) (claims : List A) (v : A) (moves : List (ℕ × Option A))
      → bound ≤ length claims
      → AreRight bound claims moves
      → AreRight bound (claims ++ v ∷ []) moves
  AreRight-append bound claims v [] h r = tt
  AreRight-append bound claims v (e ∷ l) h (a, b, f, r) = (
    a,
    b ∙ sym (get_elem?-before claims v e.0 (omega (arith, a, h))),
    f,
    AreRight-append bound claims v l h r,
  )

  pub AreRight-next :
      (bound : ℕ) (claims : List A) (moves : List (ℕ × Option A))
      → AreRight bound claims moves
      → AreRight (bound + 1) claims moves
  AreRight-next bound claims [] r = tt
  AreRight-next bound claims (e ∷ l) (a, b, f, r) =
      (omega (arith, a), b, f, AreRight-next bound claims l r)

  -- Nothing has been moved out of a position that no consumer has claimed.
  pub AreRight-is_moved :
      (bound : ℕ) (claims : List A) (moves : List (ℕ × Option A))
      → AreRight bound claims moves
      → is_moved bound moves ≡ false
  AreRight-is_moved bound claims [] r = refl
  AreRight-is_moved bound claims (e ∷ l) (a, b, f, r) =
      ground (arith, a, AreRight-is_moved bound claims l r)

  -- A consumer has not reached a cell that is free for the enqueue position.
  pub room :
      (q : Queue A) (p : ℕ)
      → 2 ≤ q.capacity
      → seq q q.enqueue_pos ≡ q.enqueue_pos
      → q.enqueue_pos ≤ p + q.capacity
      → (seq q p ≡ p + 1) ⊎ (seq q p ≡ p)
      → q.enqueue_pos + 1 ≤ p + q.capacity
  room q p two free k e = elim (dec_lt q.enqueue_pos (p + q.capacity)) [
    | yes l ↦ omega (arith, l)
    | no m ↦
        let end : q.enqueue_pos ≡ p + q.capacity = omega (arith, k, m) in
        let again = ap (seq q) end ∙ seq_again q p in
        absurd (ground (arith, again, free, e, end, two))
  ]

  -- A producer has claimed the enqueue position, as the other threads see it.
  pub claim-IsSound :
      (q : Queue A) (claims : List A) (v : A) (moves : List (ℕ × Option A)) (pc : Pc A)
      → 2 ≤ q.capacity
      → q.enqueue_pos ≡ length claims
      → q.dequeue_pos ≤ q.enqueue_pos
      → seq q q.enqueue_pos ≡ q.enqueue_pos
      → IsSound q claims moves pc
      → IsSound (record q { enqueue_pos = q.enqueue_pos + 1 }) (claims ++ v ∷ []) moves pc
  claim-IsSound q claims v moves idle two n d free h = tt
  claim-IsSound q claims v moves (enq_start w) two n d free h = tt
  claim-IsSound q claims v moves (enq_loaded w p) two n d free h = omega (arith, h)
  claim-IsSound q claims v moves (enq_seen w p) two n d free h =
      (omega (arith, h.0), λ e. absurd (omega (arith, h.0, e)))
  claim-IsSound q claims v moves (enq_claimed w p) two n d free h =
      (h.0, omega (arith, h.1), h.2, get_elem?-before claims v p (omega (arith, h.1, n)) ∙ h.3)
  claim-IsSound q claims v moves (enq_stored w p) two n d free h =
      (h.0, omega (arith, h.1), h.2, get_elem?-before claims v p (omega (arith, h.1, n)) ∙ h.3, h.4)
  claim-IsSound q claims v moves (enq_done ok) two n d free h = tt
  claim-IsSound q claims v moves deq_start two n d free h = tt
  claim-IsSound q claims v moves (deq_loaded p) two n d free h = h
  claim-IsSound q claims v moves (deq_seen p) two n d free h = h
  claim-IsSound q claims v moves (deq_claimed p) two n d free h =
      let far : q.enqueue_pos + 1 ≤ p + q.capacity = room q p two free h.1 (inl h.2) in
      (h.0, far, h.2, h.3 ∙ sym (get_elem?-before claims v p (omega (arith, h.0, d, n))), h.4)
  claim-IsSound q claims v moves (deq_moved p t) two n d free h = (
    h.0,
    room q p two free h.1 (inl h.2),
    h.2,
    h.3 ∙ sym (get_elem?-before claims v p (omega (arith, h.0, d, n))),
  )
  claim-IsSound q claims v moves (deq_done t) two n d free h = tt

  past :
      (q : Queue A) (p : ℕ)
      → seq q q.dequeue_pos ≡ q.dequeue_pos + 1
      → q.dequeue_pos ≤ p
      → seq q p ≡ p
      → q.dequeue_pos + 1 ≤ p
  past q p full h k = elim (dec_lt q.dequeue_pos p) [
    | yes l ↦ omega (arith, l)
    | no m ↦
        let same : p ≡ q.dequeue_pos = omega (arith, h, m) in
        absurd (omega (arith, ap (seq q) same, full, k, same))
  ]

  -- A consumer has claimed the dequeue position, as the other threads see it.
  pub take-IsSound :
      (q : Queue A) (claims : List A) (moves : List (ℕ × Option A)) (pc : Pc A)
      → seq q q.dequeue_pos ≡ q.dequeue_pos + 1
      → IsSound q claims moves pc
      → IsSound (record q { dequeue_pos = q.dequeue_pos + 1 }) claims moves pc
  take-IsSound q claims moves idle full h = tt
  take-IsSound q claims moves (enq_start w) full h = tt
  take-IsSound q claims moves (enq_loaded w p) full h = h
  take-IsSound q claims moves (enq_seen w p) full h = h
  take-IsSound q claims moves (enq_claimed w p) full h = (past q p full h.0 h.2, h.1, h.2, h.3)
  take-IsSound q claims moves (enq_stored w p) full h = (past q p full h.0 h.2, h.1, h.2, h.3, h.4)
  take-IsSound q claims moves (enq_done ok) full h = tt
  take-IsSound q claims moves deq_start full h = tt
  take-IsSound q claims moves (deq_loaded p) full h = omega (arith, h)
  take-IsSound q claims moves (deq_seen p) full h =
      (omega (arith, h.0), λ e. absurd (omega (arith, h.0, e)))
  take-IsSound q claims moves (deq_claimed p) full h = (omega (arith, h.0), h.1, h.2, h.3, h.4)
  take-IsSound q claims moves (deq_moved p t) full h = (omega (arith, h.0), h.1, h.2, h.3)
  take-IsSound q claims moves (deq_done t) full h = tt
