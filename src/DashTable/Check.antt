-- ===== src/DashTable/Check.antt =====
-- `IsDirectoryConsistent` (src/core/dashtable.cc), the constructor and `Clear`.
use nano_redis.Prelude.{
  ◌↔◌, ℕ, zero, suc, ◌+◌, ◌-◌, ◌*◌, ◌/◌, ◌%◌, ◌^◌, ◌≤◌, ◌<◌, ◌≡◌, refl, arith, List, [], ◌∷◌,
  length, sym, ap, ◌∙◌, true, false, ◌&&◌, ◌==◌, ==_iff, Bool-cases, inl, inr, if◌then◌else◌, ltb,
  none, ltb→lt,
}
use nano_redis.Prelude.Powers.{pow_pos, pow_mono, block_eq, block_bounds, block_start, block_end}
use nano_redis.DashTable.{
  Table, Segment, slot, write, segment_at, get_segment_index, find, new_table, clear, clear_slots,
}
use nano_redis.DashTable.Interface.{Buckets}
use nano_redis.DashTable.Directory.{length-addresses, slot-addresses, write-same}
use nano_redis.DashTable.Consistent.{local, chunk, IsConsistent, index-lt}
use nano_redis.DashTable.Chunks.{IsShaped, IsUniform, covered, shallow_inv, Found-IsPart}
use nano_redis.DashTable.Methods.{find_lem}
use nano_redis.DashTable.Shape.{SameShape, shape-index, shape-IsConsistent, write_map}
use nano_redis.DashTable.Walk.{shallow_slots, same_slots, check_chunks, is_directory_consistent}

dir_size : (depth : ℕ) → (if depth == 0 then 1 else 2 ^ depth) ≡ 2 ^ depth
dir_size zero = refl
dir_size (suc depth) = let no : (suc depth == 0) ≡ false = ground arith in rw no refl

module _ {K V : Type 0} (b : Buckets K V) where
  module _ (t : Table b) (deep : t.global_depth ≤ 31) (c : IsShaped b t) where
    shallow_slots_lem : (n : ℕ) → n ≤ length t.segment_directory → shallow_slots b n t ≡ true
    unfolding shallow_slots
    shallow_slots_lem zero h = refl
    shallow_slots_lem (suc n) h =
        ground (arith, (c.blocks n (omega arith)).shallow, shallow_slots_lem n (omega arith))

    same_slots_lem :
        (n start p : ℕ)
        → ((j : ℕ) → j ≤ n → slot t.segment_directory (start + j) ≡ p)
        → same_slots b n t start p ≡ true
    unfolding same_slots
    same_slots_lem zero start p h = refl
    same_slots_lem (suc n) start p h =
        ground (arith, h (suc n) (omega arith), same_slots_lem n start p (λ j l. h j (omega arith)))

    check_chunks_lem : (fuel i : ℕ) → check_chunks b fuel t i ≡ true
    unfolding check_chunks
    check_chunks_lem zero i = refl
    check_chunks_lem (suc fuel) i = elim (Bool-cases (ltb i (length t.segment_directory))) [
      | inr e ↦ rw e refl
      | inl e ↦
          let h = ltb→lt _ _ e in
          let o = c.blocks i h in
          let n = chunk b t i in
          let ends = block_end t.global_depth (local b t i) i o.shallow (omega (arith, c.width)) in
          let fits : n % 2 ^ 32 ≡ n = omega (arith, ends, pow_mono t.global_depth 31 deep) in
          let start = block_start i n in
          let small = block_bounds i n (pow_pos (t.global_depth - local b t i)) in
          let same = same_slots_lem (n - 1) (i - i % n) (slot t.segment_directory i) λ j l.
            (o.shared (i - i % n + j)
                (omega (arith, start, ends, c.width, pow_pos (t.global_depth - local b t i)))).1
              (block_eq (i - i % n + j) n (i / n) (omega (arith, start))
                (omega (arith, start, pow_pos (t.global_depth - local b t i)))) in
          rw e (
            ap
              (λ (size : ℕ).
                same_slots b (size - 1) t (i - i % size) (slot t.segment_directory i)
                && ((segment_at b t i).segment_id == (i - i % size))
                && check_chunks b fuel t (i + size))
              fits
            ∙ ground (arith, same, o.starts, start, check_chunks_lem fuel (i + n)))
    ]

    shaped_checks : is_directory_consistent b t ≡ true
    unfolding is_directory_consistent
    shaped_checks =
        let n = length t.segment_directory in
        let wide : (n == (if t.global_depth == 0 then 1 else 2 ^ t.global_depth)) ≡ true =
          elim (Bool-cases (t.global_depth == 0)) [
            | inl e ↦
                let z = (==_iff t.global_depth 0).0 e in
                rw e ((==_iff n 1).1 (c.width ∙ ap (λ (d : ℕ). 2 ^ d) z))
            | inr e ↦ rw e ((==_iff n (2 ^ t.global_depth)).1 c.width)
          ] in
        let small : ltb 64 t.global_depth ≡ false = ground (arith, deep) in
        rw (small, wide, shallow_slots_lem n (omega arith), check_chunks_lem n 0) refl

  shaped_uniform : (t : Table b) → IsShaped b t → IsUniform b t
  shaped_uniform t c i j h l e =
      ap (λ (p : ℕ). (t.segments p).local_depth) (((c.blocks i h).shared j l).1 e)

  checks_shaped :
      (t : Table b)
      → t.global_depth ≤ 31
      → is_directory_consistent b t ≡ true
      → IsUniform b t
      → IsShaped b t
  unfolding is_directory_consistent
  checks_shaped t deep e uniform =
      let n = length t.segment_directory in
      let small : ltb 64 t.global_depth ≡ false = ground (arith, deep) in
      let tests : ((n == (if t.global_depth == 0 then 1 else 2 ^ t.global_depth))
            && shallow_slots b n t
            && check_chunks b n t 0)
          ≡ true =
        rw small at e in
      let sized : (n == (if t.global_depth == 0 then 1 else 2 ^ t.global_depth)) ≡ true =
        ground (arith, tests) in
      let flat : shallow_slots b n t ≡ true = ground (arith, tests) in
      let chunks : check_chunks b n t 0 ≡ true = ground (arith, tests) in
      let found = λ (k : ℕ) (h : k < n).
        covered b t uniform deep n 0 k (omega arith) (omega arith) (omega arith) h chunks in
      record {
        width =
            (==_iff n (if t.global_depth == 0 then 1 else 2 ^ t.global_depth)).0 sized
            ∙ dir_size t.global_depth;
        blocks = λ i h. Found-IsPart b t i found h (shallow_inv b t n i flat h);
      }

  -- For a depth of at most 31: `IsDirectoryConsistent` holds, and the slots of the block of each
  -- slot have its local depth, exactly if there are 2^depth slots, no local depth is above the
  -- global one, the slots that hold a segment are those of its block, and the segment's index is
  -- the first slot of the block. The block of a slot are the slots that share its first bits, as
  -- many as its local depth.
  pub is_directory_consistent_lem :
      (t : Table b)
      → t.global_depth ≤ 31
      → ((is_directory_consistent b t ≡ true) × IsUniform b t) ↔ IsShaped b t
  is_directory_consistent_lem t deep =
      (λ h. checks_shaped t deep h.0 h.1, λ c. (shaped_checks t deep c, shaped_uniform t c))

  -- The constructor's directory of 2^depth segments, for a depth of at most 31, is consistent.
  pub new_table-IsConsistent :
      (depth size : ℕ) → depth ≤ 31 → IsConsistent b (new_table b depth size)
  unfolding new_table
  new_table-IsConsistent depth size h = record {
    width = length-addresses (2 ^ depth) 0;
    depth = h;
    blocks = λ i l.
        let below : i < 2 ^ depth = omega (arith, l, length-addresses (2 ^ depth) 0) in
        let at = λ (j : ℕ) (m : j < 2 ^ depth). slot-addresses (2 ^ depth) 0 j m in
        let one : 2 ^ (depth - depth) ≡ 1 =
          let z : depth - depth ≡ 0 = omega arith in ap (λ (n : ℕ). 2 ^ n) z in
        let whole : (j : ℕ) → j / 2 ^ (depth - depth) ≡ j =
          λ j. ap (λ (n : ℕ). j / n) one ∙ omega arith in
        record {
          shallow = omega arith;
          made = omega (arith, at i below);
          starts = at i below ∙ (omega arith) ∙ sym (λ k. whole i k * one k);
          shared = λ j m.
              let below' : j < 2 ^ depth = omega (arith, m, length-addresses (2 ^ depth) 0) in
              (
                λ e.
                    ap (λ (n : ℕ). n / 2 ^ (depth - depth))
                      (omega (arith, at j below', at i below, e)),
                λ e. omega (arith, at j below', at i below, whole i, whole j, e),
              );
          placed = λ k f. ground (arith, f, b.find-empty k);
        };
  }

  pub find-new_table : (depth size : ℕ) (k : K) → find b (new_table b depth size) k ≡ none
  unfolding new_table find
  find-new_table depth size k = b.find-empty k

  clear_slots-shape :
      (d : List ℕ) (s : ℕ → Segment b.Rep) (p : ℕ)
      → ((clear_slots b d s p).local_depth ≡ (s p).local_depth)
        × ((clear_slots b d s p).segment_id ≡ (s p).segment_id)
  clear_slots-shape [] s p = (refl, refl)
  clear_slots-shape (q ∷ d) s p =
      let (l, n) =
        clear_slots-shape d (write s q (record (s q) { table = b.clear (s q).table })) p in
      let (_, l', n') = write_map s q (b.clear (s q).table) p in (l ∙ l', n ∙ n')

  cleared :
      (s : ℕ → Segment b.Rep) (q p : ℕ) (k : K)
      → b.find (s p).table k ≡ none
      → b.find (write s q (record (s q) { table = b.clear (s q).table }) p).table k ≡ none
  cleared s q p k e =
      ap (λ (m : b.Rep). b.find m k) (write_map s q (b.clear (s q).table) p).0
      ∙ elim (Bool-cases (p == q)) [ inl h ↦ rw h (b.find-clear (s q).table k) | inr h ↦ rw h e ]

  -- a map that is empty stays so
  clear_slots-empty :
      (d : List ℕ) (s : ℕ → Segment b.Rep) (p : ℕ) (k : K)
      → b.find (s p).table k ≡ none
      → b.find (clear_slots b d s p).table k ≡ none
  clear_slots-empty [] s p k e = e
  clear_slots-empty (q ∷ d) s p k e =
      clear_slots-empty d (write s q (record (s q) { table = b.clear (s q).table })) p k
        (cleared s q p k e)

  clear_slots-find :
      (d : List ℕ) (s : ℕ → Segment b.Rep) (i : ℕ) (k : K)
      → i < length d
      → b.find (clear_slots b d s (slot d i)).table k ≡ none
  clear_slots-find [] s i k h = absurd (omega arith)
  clear_slots-find (q ∷ d) s zero k h =
      clear_slots-empty d (write s q (record (s q) { table = b.clear (s q).table })) q k (
        ap (λ (r : Segment b.Rep). b.find r.table k)
          (write-same s q (record (s q) { table = b.clear (s q).table }))
        ∙ b.find-clear (s q).table k)
  clear_slots-find (q ∷ d) s (suc i) k h = clear_slots-find d _ i k (omega arith)

  clear-empty :
      (t : Table b) (i : ℕ) (k : K)
      → i < length t.segment_directory
      → b.find (segment_at b (clear b t) i).table k ≡ none
  unfolding clear
  clear-empty t i k h = clear_slots-find t.segment_directory t.segments i k h

  clear-SameShape : (t : Table b) → SameShape b t (clear b t)
  unfolding clear
  clear-SameShape t = record {
    directory = refl;
    next = refl;
    global_depth = refl;
    max_segment_size = refl;
    local_depth = λ p. (clear_slots-shape t.segment_directory t.segments p).0;
    segment_id = λ p. (clear_slots-shape t.segment_directory t.segments p).1;
  }

  -- `Clear` of a consistent directory: it stays consistent, and `Find` finds nothing under any key.
  pub clear_lem :
      (t : Table b)
      → IsConsistent b t
      → IsConsistent b (clear b t) × ((k : K) → find b (clear b t) k ≡ none)
  clear_lem t c =
      let s = clear-SameShape t in
      (
        shape-IsConsistent b t (clear b t) s c (λ i h k f. ground (arith, f, clear-empty t i k h)),
        λ k.
            find_lem b (clear b t) k
            ∙ ap (λ (n : ℕ). b.find (segment_at b (clear b t) n).table k)
                (shape-index b t (clear b t) s k)
            ∙ clear-empty t (get_segment_index b t k) k (index-lt b t k c),
      )
