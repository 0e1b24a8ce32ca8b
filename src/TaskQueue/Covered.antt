-- ===== src/TaskQueue/Covered.antt =====
-- No task that a consumer of src/core/task_queue.cc has claimed is lost.
use nano_redis.Prelude.{
  ℕ, ◌+◌, ◌^◌, ◌≤◌, ◌<◌, ◌≡◌, ◌⊎◌, refl, ap, ◌∙◌, sym, arith, Bool, true, false, not, ◌&&◌, Option,
  List, ◌∷◌, length, ◌==◌, ==_iff, Bool-cases, inl, inr, if◌then◌else◌,
}
use native.Mathlib.Decide.{dec_lt}
use nano_redis.TaskQueue.{
  Pc, idle, enq_start, enq_loaded, enq_seen, enq_claimed, enq_stored, enq_done, deq_start,
  deq_loaded, deq_seen, deq_claimed, deq_moved, deq_done, new_queue, advance, next, cell,
}
use nano_redis.TaskQueue.Threads.{
  System, place, rests, turn_from, Step, call_enqueue, call_dequeue, take_turn, Reach, start, later,
}
use nano_redis.TaskQueue.Invariant.{is_moved}
use nano_redis.TaskQueue.Safety.{Step-grows, Reach-Inv}

module _ {A : Type 0} where
  -- The consumer has claimed the position and moved nothing out of it yet.
  abbrev takes : Pc A → ℕ → Bool
  takes (deq_claimed pos) p = pos == p
  takes _ p = false

  resting : (pc : Pc A) (p : ℕ) → rests pc ≡ true → takes pc p ≡ false
  resting idle p h = refl
  resting (enq_done ok) p h = refl
  resting (deq_done t) p h = refl
  resting (enq_start v) p h = absurd (ground (arith, h))
  resting (enq_loaded v q) p h = absurd (ground (arith, h))
  resting (enq_seen v q) p h = absurd (ground (arith, h))
  resting (enq_claimed v q) p h = absurd (ground (arith, h))
  resting (enq_stored v q) p h = absurd (ground (arith, h))
  resting deq_start p h = absurd (ground (arith, h))
  resting (deq_loaded q) p h = absurd (ground (arith, h))
  resting (deq_seen q) p h = absurd (ground (arith, h))
  resting (deq_claimed q) p h = absurd (ground (arith, h))
  resting (deq_moved q t) p h = absurd (ground (arith, h))

  -- Every position below `bound` is moved out, or a thread is about to.
  abbrev Covered : ℕ → (ℕ → Pc A) → List (ℕ × Option A) → Type 0
  Covered bound pcs moves =
      (p : ℕ) → p < bound → (is_moved p moves ≡ true) ⊎ ((i : ℕ) × (takes (pcs i) p ≡ true))

  -- Thread `i` did not take a position, and goes on.
  Covered-place :
      (bound i : ℕ) (pcs : ℕ → Pc A) (pc : Pc A) (moves : List (ℕ × Option A))
      → ((p : ℕ) → takes (pcs i) p ≡ false)
      → Covered bound pcs moves
      → Covered bound (place pcs i pc) moves
  Covered-place bound i pcs pc moves free c p l = elim (c p l) [
    | inl h ↦ inl h
    | inr (j, h) ↦ inr (
      j,
      elim (Bool-cases (j == i)) [
        | inl e ↦
            absurd (ground (arith, free p, ap (λ (n : ℕ). takes (pcs n) p) ((==_iff j i).0 e), h))
        | inr e ↦ ap (λ (b : Bool). takes (if b then pc else pcs j) p) e ∙ h
      ],
    )
  ]

  place_here : (pcs : ℕ → Pc A) (i : ℕ) (pc : Pc A) → place pcs i pc i ≡ pc
  place_here pcs i pc = ap (λ (b : Bool). if b then pc else pcs i) ((==_iff i i).1 refl)

  module _ (s : System A) (i : ℕ) (c : Covered s.queue.dequeue_pos s.pcs s.moves)
      (small : s.queue.dequeue_pos < 2 ^ 62) where
    at_rest :
        (pc pc' : Pc A)
        → s.pcs i ≡ pc
        → ((p : ℕ) → takes pc p ≡ false)
        → Covered s.queue.dequeue_pos (place s.pcs i pc') s.moves
    at_rest pc pc' e free =
        Covered-place s.queue.dequeue_pos i s.pcs pc' s.moves
          (λ p. ap (λ (x : Pc A). takes x p) e ∙ free p) c

    next-Covered :
        (pos : ℕ)
        → s.pcs i ≡ deq_seen pos
        → s.queue.dequeue_pos ≡ pos
        → Covered (next pos) (place s.pcs i (deq_claimed pos)) s.moves
    next-Covered pos e same p l = elim (dec_lt p s.queue.dequeue_pos) [
      | yes m ↦ at_rest (deq_seen pos) (deq_claimed pos) e (λ p. refl) p m
      | no m ↦
          let here : pos ≡ p = omega (arith, l, m, same, small) in
          inr (
            i,
            ap (λ (x : Pc A). takes x p) (place_here s.pcs i (deq_claimed pos))
                ∙ (==_iff pos p).1 here,
          )
    ]

    moved-Covered :
        (pos : ℕ) (pc : Pc A) (t : Option A)
        → s.pcs i ≡ deq_claimed pos
        → Covered s.queue.dequeue_pos (place s.pcs i pc) ((pos, t) ∷ s.moves)
    moved-Covered pos pc t e p l = elim (c p l) [
      | inl h ↦ inl (ground (arith, h))
      | inr (j, h) ↦ elim (Bool-cases (j == i)) [
        | inl x ↦
            let taken : takes (deq_claimed pos) p ≡ true =
              ap (λ (y : Pc A). takes y p) (sym e)
              ∙ ap (λ (n : ℕ). takes (s.pcs n) p) (sym ((==_iff j i).0 x))
              ∙ h in
            inl (ground (arith, taken))
        | inr x ↦ inr (j, ap (λ (b : Bool). takes (if b then pc else s.pcs j) p) x ∙ h)
      ]
    ]

    turn-Covered :
        (weak : Bool) (pc : Pc A)
        → s.pcs i ≡ pc
        → (let t = turn_from pc i weak s in Covered t.queue.dequeue_pos t.pcs t.moves)
    unfolding advance
    turn-Covered weak idle e = at_rest idle idle e (λ p. refl)
    turn-Covered weak (enq_start v) e = at_rest (enq_start v) _ e (λ p. refl)
    turn-Covered weak (enq_loaded v pos) e = at_rest (enq_loaded v pos) _ e (λ p. refl)
    turn-Covered weak (enq_seen v pos) e =
        elim (Bool-cases ((s.queue.enqueue_pos == pos) && not weak)) [
          | inl x ↦ rw x (at_rest (enq_seen v pos) _ e (λ p. refl))
          | inr x ↦ rw x (at_rest (enq_seen v pos) _ e (λ p. refl))
        ]
    turn-Covered weak (enq_claimed v pos) e = at_rest (enq_claimed v pos) _ e (λ p. refl)
    turn-Covered weak (enq_stored v pos) e = at_rest (enq_stored v pos) _ e (λ p. refl)
    turn-Covered weak (enq_done ok) e = at_rest (enq_done ok) _ e (λ p. refl)
    turn-Covered weak deq_start e = at_rest deq_start _ e (λ p. refl)
    turn-Covered weak (deq_loaded pos) e = at_rest (deq_loaded pos) _ e (λ p. refl)
    turn-Covered weak (deq_seen pos) e =
        elim (Bool-cases ((s.queue.dequeue_pos == pos) && not weak)) [
          | inr x ↦ rw x (at_rest (deq_seen pos) deq_start e (λ p. refl))
          | inl x ↦
              rw x (next-Covered pos e ((==_iff s.queue.dequeue_pos pos).0 (ground (arith, x))))
        ]
    turn-Covered weak (deq_claimed pos) e = moved-Covered pos _ (cell s.queue pos).storage e
    turn-Covered weak (deq_moved pos t) e = at_rest (deq_moved pos t) _ e (λ p. refl)
    turn-Covered weak (deq_done t) e = at_rest (deq_done t) _ e (λ p. refl)

  Step-Covered :
      {s t : System A}
      → Step s t
      → s.queue.dequeue_pos < 2 ^ 62
      → Covered s.queue.dequeue_pos s.pcs s.moves
      → Covered t.queue.dequeue_pos t.pcs t.moves
  Step-Covered {s} (call_enqueue i v r) small c =
      Covered-place s.queue.dequeue_pos i s.pcs (enq_start v) s.moves (λ p. resting (s.pcs i) p r) c
  Step-Covered {s} (call_dequeue i r) small c =
      Covered-place s.queue.dequeue_pos i s.pcs deq_start s.moves (λ p. resting (s.pcs i) p r) c
  Step-Covered {s} (take_turn i weak) small c = turn-Covered s i c small weak (s.pcs i) refl

  Reach-Covered :
      {capacity : ℕ} {s : System A}
      → 2 ≤ capacity
      → Reach capacity s
      → length s.claims + capacity < 2 ^ 62
      → Covered s.queue.dequeue_pos s.pcs s.moves
  unfolding new_queue
  Reach-Covered two start small = λ p l. absurd (omega (arith, l))
  Reach-Covered {capacity} two (later r step) small =
      let grows = Step-grows step in
      let inv = Reach-Inv capacity two r (omega (arith, small, grows)) in
      Step-Covered step (omega (arith, small, grows, inv.counted, inv.ordered))
        (Reach-Covered two r (omega (arith, small, grows)))

  -- Where no thread is in a call, in a state that threads reach from an empty queue with a capacity
  -- of at least 2, before the positions come near 2^62: something has been moved out of every
  -- position below the dequeue position.
  pub none_lost :
      {s : System A} (capacity : ℕ)
      → 2 ≤ capacity
      → Reach capacity s
      → length s.claims + capacity < 2 ^ 62
      → ((i : ℕ) → rests (s.pcs i) ≡ true)
      → (p : ℕ) → p < s.queue.dequeue_pos
      → is_moved p s.moves ≡ true
  none_lost {s} capacity two r small quiet p l = elim (Reach-Covered two r small p l) [
    | inl h ↦ h
    | inr (i, h) ↦ absurd (ground (arith, h, resting (s.pcs i) p (quiet i)))
  ]
