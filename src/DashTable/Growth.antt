-- ===== src/DashTable/Growth.antt =====
-- The loop of `Insert` (src/core/dashtable.cc) that splits until the segment of the key is small.
use nano_redis.Prelude.{
  ℕ, zero, suc, ◌-◌, ◌/◌, ◌^◌, ◌≤◌, ◌<◌, ◌≡◌, refl, arith, List, [], ◌∷◌, sym, ap, ◌∙◌, true, false,
  Bool, not, ◌==◌, Bool-cases, inl, inr, ==_iff, some,
}
use nano_redis.Prelude.Powers.{prefix-prefix}
use nano_redis.DashTable.{
  Table, segment_at, get_segment_index, find, need_split, split_segment, split_loop,
}
use nano_redis.DashTable.Float.{is_full, is_full_mono}
use nano_redis.DashTable.Interface.{Buckets, count, listed, Respects}
use nano_redis.DashTable.Consistent.{prefix, local, IsConsistent, index-lt}
use nano_redis.DashTable.Shape.{index-block}
use nano_redis.DashTable.Split.{split_segment-Split}

-- Where every listed key that equals itself satisfies `p`, the keys are those that satisfy it.
count_all :
    {K : Type 0} (equal : K → K → Bool) (p : K → Bool) (ks : List K)
    → ((j : K) → listed equal ks j ≡ true → equal j j ≡ true → p j ≡ true)
    → count (λ j. not (equal j j)) ks ≡ 0
    → count (λ j. true) ks ≡ count p ks
count_all equal p [] all proper = refl
count_all equal p (k ∷ ks) all proper =
    ground (arith, all k, count_all equal p ks (λ j l. all j (ground (arith, l))))

module _ {K V : Type 0} (b : Buckets K V) where
  -- The keys whose hashes begin with the same bits.
  abbrev pub close : ℕ → K → K → Bool
  close bits k j = prefix bits (b.hash j) == prefix bits (b.hash k)

  -- The segment of `k` has few keys that share the first `bits` bits with it, and all its keys
  -- equal themselves.
  pub record IsSparse (bits : ℕ) (t : Table b) (k : K) : Type 0 where
    pub few :
        is_full t.max_segment_size
          (count (close bits k) (b.keys (segment_at b t (get_segment_index b t k)).table))
        ≡ false
    pub proper :
        count (λ j. not (b.equal j j)) (b.keys (segment_at b t (get_segment_index b t k)).table) ≡ 0

  close-Respects : (bits : ℕ) (k : K) → Respects b.equal (close bits k)
  close-Respects bits k i j e =
      ap (λ (h : ℕ). prefix bits h == prefix bits (b.hash k)) (b.hash_congr i j e)

  proper-Respects : Respects b.equal (λ j. not (b.equal j j))
  proper-Respects k j e =
      let back = b.equal_symm k j e in
      rw (b.equal_trans k j k e back, b.equal_trans j k j back e) refl

  deep_enough :
      (bits : ℕ) (t : Table b) (k : K)
      → IsConsistent b t
      → IsSparse bits t k
      → bits ≤ local b t (get_segment_index b t k)
      → need_split b t (get_segment_index b t k) ≡ false
  unfolding need_split
  deep_enough bits t k c s h =
      let i = get_segment_index b t k in
      let m = (segment_at b t i).table in
      let block = c.blocks i (index-lt b t k c) in
      let all : (j : K)
          → listed b.equal (b.keys m) j ≡ true
          → b.equal j j ≡ true
          → close bits k j ≡ true =
        λ j l r.
          let same : prefix (local b t i) (b.hash j) ≡ prefix (local b t i) (b.hash k) =
            block.placed j (sym (b.listed-keys m j) ∙ l) ∙ sym (index-block b t k c) in
          let cut = λ (x : ℕ).
            prefix-prefix (local b t i) bits x h (omega (arith, block.shallow, c.depth)) in
          (==_iff (prefix bits (b.hash j)) (prefix bits (b.hash k))).1 (
            sym (cut (b.hash j))
            ∙ ap (λ (n : ℕ). n / 2 ^ (local b t i - bits)) same
            ∙ cut (b.hash k)) in
      ap (is_full t.max_segment_size)
        (b.size_lem m ∙ count_all b.equal (close bits k) (b.keys m) all s.proper)
      ∙ s.few

  pub split_loop_lem :
      (fuel bits : ℕ) (t : Table b) (k : K)
      → bits ≤ 31
      → IsConsistent b t
      → IsSparse bits t k
      → bits - local b t (get_segment_index b t k) < fuel
      → (t' : Table b) × (split_loop b fuel t k ≡ some t')
        × IsConsistent b t'
        × ((j : K) → find b t' j ≡ find b t j)
        × (need_split b t' (get_segment_index b t' k) ≡ false)
  unfolding split_loop
  split_loop_lem zero bits t k small c s enough = absurd (omega arith)
  split_loop_lem (suc fuel) bits t k small c s enough =
      elim (Bool-cases (need_split b t (get_segment_index b t k))) [
        | inl e ↦
            let i = get_segment_index b t k in
            let t1 = split_segment b t i in
            let shallow : local b t i < bits = ground (arith, deep_enough bits t k c s, e) in
            let step = split_segment-Split b t i c (index-lt b t k c) (omega arith) in
            let (deep, counts) = step.deeper k refl in
            let sparse : IsSparse bits t1 k = record {
              few =
                  ap
                    (λ (n : ℕ). is_full n (
                      count (close bits k)
                        (b.keys (segment_at b t1 (get_segment_index b t1 k)).table)))
                    step.max_segment_size
                  ∙ is_full_mono t.max_segment_size _ _
                      (counts (close bits k) (close-Respects bits k)) s.few;
              proper = omega (arith, counts (λ j. not (b.equal j j)) proper-Respects, s.proper);
            } in
            let (t', run, c', finds, done) =
              split_loop_lem fuel bits t1 k small step.consistent sparse (omega (arith, deep)) in
            (t', rw e run, c', (λ j. finds j ∙ step.finds j), done)
        | inr e ↦ (t, rw e refl, c, (λ j. refl), e)
      ]
