-- ===== src/TaskQueue/Others.antt =====
-- What an access of one thread of src/core/task_queue.cc leaves of what holds for the others.
use nano_redis.Prelude.{
  ℕ, zero, suc, ◌+◌, ◌%◌, ◌≤◌, ◌<◌, ◌≡◌, ◌⊎◌, refl, ap, ◌∙◌, sym, arith, Bool, true, false, Option,
  some, List, [], ◌∷◌, ◌++◌, length, get_elem?, ◌==◌, ==_iff, if◌then◌else◌, Bool-cases, inl, inr,
}
use native.Mathlib.Nat.{add-mod_right}
use native.Mathlib.Decide.{dec_lt}
use nano_redis.TaskQueue.{
  Cell, Queue, Pc, idle, enq_start, enq_loaded, enq_seen, enq_claimed, enq_stored, enq_done,
  deq_start, deq_loaded, deq_seen, deq_claimed, deq_moved, deq_done, cell, put,
}
use nano_redis.TaskQueue.Threads.{place}
use nano_redis.TaskQueue.Invariant.{slot_ne, seq, is_moved, owns, IsSound}

module _ {A : Type 0} where
  pub get_elem?-before :
      (l : List A) (v : A) (p : ℕ) → p < length l → get_elem? (l ++ v ∷ []) p ≡ get_elem? l p
  get_elem?-before [] v p h = absurd (omega arith)
  get_elem?-before (x ∷ l) v zero h = refl
  get_elem?-before (x ∷ l) v (suc p) h = get_elem?-before l v p (omega arith)

  pub get_elem?-last : (l : List A) (v : A) → get_elem? (l ++ v ∷ []) (length l) ≡ some v
  get_elem?-last [] v = refl
  get_elem?-last (x ∷ l) v = get_elem?-last l v

  pub placed :
      (P : Pc A → Type 0) (pcs : ℕ → Pc A) (i : ℕ) (pc : Pc A)
      → P pc
      → ((j : ℕ) → (j == i) ≡ false → P (pcs j))
      → (j : ℕ) → P (place pcs i pc j)
  placed P pcs i pc here there j = elim (Bool-cases (j == i)) [
    | inl e ↦ rw e here
    | inr e ↦ rw e (there j e)
  ]

  -- The thread owns nothing that it did not own.
  pub unique_kept :
      (pcs : ℕ → Pc A) (i : ℕ) (pc : Pc A)
      → ((i j p : ℕ) → owns (pcs i) p ≡ true → owns (pcs j) p ≡ true → i ≡ j)
      → ((p : ℕ) → owns pc p ≡ true → owns (pcs i) p ≡ true)
      → (j k p : ℕ) → owns (place pcs i pc j) p ≡ true
      → owns (place pcs i pc k) p ≡ true
      → j ≡ k
  unique_kept pcs i pc unique fewer j k p h l = unique j k p (before j h) (before k l)
    where
      before : (j : ℕ) → owns (place pcs i pc j) p ≡ true → owns (pcs j) p ≡ true
      before j h = elim (Bool-cases (j == i)) [
        | inl e ↦
            ap (λ (n : ℕ). owns (pcs n) p) ((==_iff j i).0 e)
            ∙ fewer p (ap (λ (b : Bool). owns (if b then pc else pcs j) p) (sym e) ∙ h)
        | inr e ↦ ap (λ (b : Bool). owns (if b then pc else pcs j) p) (sym e) ∙ h
      ]

  -- It owns one position that no other thread owns.
  pub unique_new :
      (pcs : ℕ → Pc A) (i : ℕ) (pc : Pc A)
      → ((i j p : ℕ) → owns (pcs i) p ≡ true → owns (pcs j) p ≡ true → i ≡ j)
      → ((j p : ℕ) → owns (pcs j) p ≡ true → owns pc p ≡ false)
      → (j k p : ℕ) → owns (place pcs i pc j) p ≡ true
      → owns (place pcs i pc k) p ≡ true
      → j ≡ k
  unique_new pcs i pc unique others j k p h l = elim (Bool-cases (j == i)) [
    | inl e ↦ elim (Bool-cases (k == i)) [
      | inl f ↦ (==_iff j i).0 e ∙ sym ((==_iff k i).0 f)
      | inr f ↦ absurd (ground (arith, at_pc j e h, others k p (at_old k f l)))
    ]
    | inr e ↦ elim (Bool-cases (k == i)) [
      | inl f ↦ absurd (ground (arith, at_pc k f l, others j p (at_old j e h)))
      | inr f ↦ unique j k p (at_old j e h) (at_old k f l)
    ]
  ]
    where
      at_pc : (j : ℕ) → (j == i) ≡ true → owns (place pcs i pc j) p ≡ true → owns pc p ≡ true
      at_pc j e h = ap (λ (b : Bool). owns (if b then pc else pcs j) p) (sym e) ∙ h

      at_old : (j : ℕ) → (j == i) ≡ false → owns (place pcs i pc j) p ≡ true → owns (pcs j) p ≡ true
      at_old j e h = ap (λ (b : Bool). owns (if b then pc else pcs j) p) (sym e) ∙ h

  pub seq_again : (q : Queue A) (p : ℕ) → seq q (p + q.capacity) ≡ seq q p
  seq_again q p = ap (λ (i : ℕ). (q.buffer i).sequence) (add-mod_right p q.capacity)

  pub cell-put_ne :
      (q : Queue A) (pos p : ℕ) (c : Cell A)
      → (p % q.capacity == pos % q.capacity) ≡ false
      → cell (put q pos c) p ≡ cell q p
  cell-put_ne q pos p c e = ap (λ (b : Bool). if b then c else q.buffer (p % q.capacity)) e

  pub cell-put : (q : Queue A) (pos : ℕ) (c : Cell A) → cell (put q pos c) pos ≡ c
  cell-put q pos c = ground arith

  -- A write to the cell of a position `pos` that its owner makes, as another thread sees it.
  pub write-IsSound :
      (q : Queue A) (claims : List A) (moves moves' : List (ℕ × Option A)) (pos : ℕ) (c : Cell A)
      (pc : Pc A)
      → 2 ≤ q.capacity
      → q.dequeue_pos ≤ q.enqueue_pos
      → q.enqueue_pos ≤ q.dequeue_pos + q.capacity
      → pos < q.enqueue_pos
      → q.enqueue_pos ≤ pos + q.capacity
      → ((seq q pos ≡ pos) × (q.dequeue_pos ≤ pos))
        ⊎ ((seq q pos ≡ pos + 1) × (pos < q.dequeue_pos))
      → owns pc pos ≡ false
      → ((p : ℕ) → (p == pos) ≡ false → is_moved p moves' ≡ is_moved p moves)
      → IsSound q claims moves pc
      → IsSound (put q pos c) claims moves' pc
  write-IsSound q claims moves moves' pos c idle two dq eq l m o free same h = tt
  write-IsSound q claims moves moves' pos c (enq_start v) two dq eq l m o free same h = tt
  write-IsSound q claims moves moves' pos c (enq_loaded v p) two dq eq l m o free same h = h
  write-IsSound q claims moves moves' pos c (enq_seen v p) two dq eq l m o free same h = (
    h.0,
    λ e. elim (dec_lt p (pos + q.capacity)) [
      | yes k ↦
          ap (λ (x : Cell A). x.sequence)
            (cell-put_ne q pos p c
              (slot_ne q.capacity p pos (ground (arith, e, l)) k (omega (arith, e, l))))
          ∙ h.1 e
      | no k ↦
          let end : p ≡ pos + q.capacity = omega (arith, e, m) in
          let again = ap (seq q) end ∙ seq_again q pos in
          absurd (ground (arith, o, again, h.1 e, e, l))
    ],
  )
  write-IsSound q claims moves moves' pos c (enq_claimed v p) two dq eq l m o free same h =
      let same_cell =
        cell-put_ne q pos p c
          (slot_ne q.capacity p pos free (omega (arith, h.1, m)) (omega (arith, h.0, l, eq))) in
      let same_seq = ap (λ (x : Cell A). x.sequence) same_cell in (h.0, h.1, same_seq ∙ h.2, h.3)
  write-IsSound q claims moves moves' pos c (enq_stored v p) two dq eq l m o free same h =
      let same_cell =
        cell-put_ne q pos p c
          (slot_ne q.capacity p pos free (omega (arith, h.1, m)) (omega (arith, h.0, l, eq))) in
      let same_seq = ap (λ (x : Cell A). x.sequence) same_cell in
      (h.0, h.1, same_seq ∙ h.2, h.3, ap (λ (x : Cell A). x.storage) same_cell ∙ h.4)
  write-IsSound q claims moves moves' pos c (enq_done ok) two dq eq l m o free same h = tt
  write-IsSound q claims moves moves' pos c deq_start two dq eq l m o free same h = tt
  write-IsSound q claims moves moves' pos c (deq_loaded p) two dq eq l m o free same h = h
  write-IsSound q claims moves moves' pos c (deq_seen p) two dq eq l m o free same h = (
    h.0,
    λ e. elim (dec_lt p (pos + q.capacity)) [
      | yes k ↦ elim (Bool-cases (p == pos)) [
        | inl x ↦
            let here = ap (seq q) ((==_iff p pos).0 x) in
            absurd (ground (arith, o, here, h.1 e, e, x))
        | inr x ↦
            ap (λ (y : Cell A). y.sequence)
              (cell-put_ne q pos p c (slot_ne q.capacity p pos x k (omega (arith, e, l, eq))))
            ∙ h.1 e
      ]
      | no k ↦
          let end : p ≡ pos + q.capacity = omega (arith, e, dq, m) in
          let again = ap (seq q) end ∙ seq_again q pos in
          absurd (ground (arith, o, again, h.1 e, e, l))
    ],
  )
  write-IsSound q claims moves moves' pos c (deq_claimed p) two dq eq l m o free same h =
      let same_cell =
        cell-put_ne q pos p c
          (slot_ne q.capacity p pos free (omega (arith, h.0, dq, m)) (omega (arith, h.1, l))) in
      let same_seq = ap (λ (x : Cell A). x.sequence) same_cell in
      (h.0, h.1, same_seq ∙ h.2, ap (λ (x : Cell A). x.storage) same_cell ∙ h.3, same p free ∙ h.4)
  write-IsSound q claims moves moves' pos c (deq_moved p t) two dq eq l m o free same h =
      let same_cell =
        cell-put_ne q pos p c
          (slot_ne q.capacity p pos free (omega (arith, h.0, dq, m)) (omega (arith, h.1, l))) in
      let same_seq = ap (λ (x : Cell A). x.sequence) same_cell in (h.0, h.1, same_seq ∙ h.2, h.3)
  write-IsSound q claims moves moves' pos c (deq_done t) two dq eq l m o free same h = tt
