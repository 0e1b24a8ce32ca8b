-- ===== src/DashTable/Consistent.antt =====
-- The invariant of the directory of src/core/dashtable.cc: which slots share a segment, and where
-- the keys lie. The slots are the prefixes of the hashes, a segment's those of its local depth.
use nano_redis.Prelude.{
  ℕ, ◌+◌, ◌-◌, ◌*◌, ◌/◌, ◌%◌, ◌^◌, ◌≤◌, ◌<◌, ◌≡◌, ◌≢◌, ◌↔◌, refl, arith, length, sym, ap, ◌∙◌, true,
  ◌==◌, Bool-cases, inl, inr, ==_iff,
}
use nano_redis.Prelude.Powers.{
  pow_pos, pow_next, pow_mono, block_eq, block_bounds, block_twice, prefix-lt,
}
use mathlib.Core.Path.{subst}
use native.Mathlib.Nat.{mul_assoc}
use nano_redis.DashTable.{Table, slot, segment_at, get_segment_index}
use nano_redis.DashTable.Interface.{Buckets, is_some}
use nano_redis.DashTable.Doubling.{Grown}

-- The first `depth` bits of a hash of 64.
abbrev pub prefix : ℕ → ℕ → ℕ
prefix depth hash = hash / 2 ^ (64 - depth)

module _ {K V : Type 0} (b : Buckets K V) where
  abbrev pub local : Table b → ℕ → ℕ
  local t i = (segment_at b t i).local_depth

  -- How many slots the segment of slot `i` has.
  abbrev pub chunk : Table b → ℕ → ℕ
  chunk t i = 2 ^ (t.global_depth - local t i)

  pub record IsBlock (t : Table b) (i : ℕ) : Type 0 where
    pub shallow : local t i ≤ t.global_depth
    pub made : slot t.segment_directory i < t.next
    pub starts : (segment_at b t i).segment_id ≡ i / chunk t i * chunk t i
    -- the slots that hold the same pointer are those of the block
    pub shared :
        (j : ℕ)
        → j < length t.segment_directory
        → (slot t.segment_directory j ≡ slot t.segment_directory i)
          ↔ (j / chunk t i ≡ i / chunk t i)
    -- a key of the segment has the prefix of the block
    pub placed :
        (k : K)
        → is_some (b.find (segment_at b t i).table k) ≡ true
        → prefix (local t i) (b.hash k) ≡ i / chunk t i

  -- The indices are kept in 32 bits, and the depth stays below that.
  pub record IsConsistent (t : Table b) : Type 0 where
    pub width : length t.segment_directory ≡ 2 ^ t.global_depth
    pub depth : t.global_depth ≤ 31
    pub blocks : (i : ℕ) → i < length t.segment_directory → IsBlock t i

  pub get_segment_index_lem :
      (t : Table b) (k : K) → get_segment_index b t k ≡ prefix t.global_depth (b.hash k)
  unfolding get_segment_index
  get_segment_index_lem t k = elim (Bool-cases (t.global_depth == 0)) [
    | inl h ↦
        let e : t.global_depth ≡ 0 = (==_iff t.global_depth 0).0 h in
        rw h (rw e (omega (arith, b.hash-lt k)))
    | inr h ↦ rw h refl
  ]

  pub index-lt :
      (t : Table b) (k : K) → IsConsistent t → get_segment_index b t k < length t.segment_directory
  index-lt t k c =
      rw (get_segment_index_lem t k, c.width)
        (prefix-lt 64 t.global_depth (b.hash k) (omega (arith, c.depth)) (b.hash-lt k))

  module _ (t t' : Table b) (g : Grown b t t') where
    -- the segment of a slot is that of half its index
    pub grown-chunk :
        (i : ℕ)
        → i < 2 * length t.segment_directory
        → t'.global_depth ≡ t.global_depth + 1
        → IsBlock t (i / 2)
        → (local t' i ≡ local t (i / 2)) × (chunk t' i ≡ chunk t (i / 2) * 2)
    grown-chunk i h d block =
        let same : local t' i ≡ local t (i / 2) =
          (g.kept (slot t'.segment_directory i)).local_depth
          ∙ ap (λ (p : ℕ). (t.segments p).local_depth) (g.slots i h) in
        (
          same,
          ap (λ (k : ℕ). 2 ^ (t'.global_depth - k)) same
              ∙ pow_next (t.global_depth - local t (i / 2)) (t'.global_depth - local t (i / 2))
                  (omega (arith, block.shallow)),
        )

    pub grown-start :
        (i : ℕ)
        → IsConsistent t
        → i < length t.segment_directory
        → (t'.segments (slot t.segment_directory i)).segment_id ≡ i / chunk t i * chunk t i * 2
    grown-start i c h =
        let block = c.blocks i h in
        let n = chunk t i in
        let m = i / n * n in
        let (lo, hi) = block_bounds i n (pow_pos (t.global_depth - local t i)) in
        let inside : m / n ≡ i / n = block_eq m n (i / n) (omega arith) (omega (arith, lo, hi)) in
        let same = (block.shared m (omega (arith, lo))).1 inside in
        let apart : (j : ℕ) → j < m → slot t.segment_directory j ≢ slot t.segment_directory m =
          λ j l e.
            let q = (block.shared j (omega (arith, lo))).0 (e ∙ same) in
            let (lo', hi') = block_bounds j n (pow_pos (t.global_depth - local t i)) in
            omega (arith, ap (λ (k : ℕ). k * n) q, hi', l, pow_pos (t.global_depth - local t i)) in
        let e =
          subst (λ (p : ℕ). (t'.segments p).segment_id ≡ m * 2 % 2 ^ 32) same
            (g.first m (omega (arith, lo)) apart) in
        omega (arith, e, lo, h, c.width, pow_mono t.global_depth 31 c.depth)

    grown-IsBlock :
        (i : ℕ)
        → IsConsistent t
        → t.global_depth ≤ 30
        → i < length t'.segment_directory
        → IsBlock t' i
    grown-IsBlock i c fits h =
        let half = i / 2 in
        let low : half < length t.segment_directory = omega (arith, g.width) in
        let block = c.blocks half low in
        let d : t'.global_depth ≡ t.global_depth + 1 = omega (arith, g.depth) in
        let s = g.slots i (omega (arith, g.width)) in
        let (l, w) = grown-chunk i (omega (arith, g.width)) d block in
        let at : i / chunk t' i ≡ half / chunk t half =
          ap (λ (n : ℕ). i / n) w ∙ block_twice i (chunk t half) in
        record {
          shallow = omega (arith, l, d, block.shallow);
          made = omega (arith, ap (λ (p : ℕ). p) s, block.made, g.next);
          starts =
              ap (λ (p : ℕ). (t'.segments p).segment_id) s
              ∙ grown-start half c low
              ∙ sym (
                  ap (λ (k : ℕ). k * chunk t' i) at
                  ∙ ap (λ (k : ℕ). half / chunk t half * k) w
                  ∙ sym (mul_assoc (half / chunk t half) (chunk t half) 2));
          shared = λ j p.
              let s' = g.slots j (omega (arith, g.width)) in
              let at' : j / chunk t' i ≡ j / 2 / chunk t half =
                ap (λ (n : ℕ). j / n) w ∙ block_twice j (chunk t half) in
              let (to, back) = block.shared (j / 2) (omega (arith, g.width)) in
              (λ e. at' ∙ to (sym s' ∙ e ∙ s) ∙ sym at, λ e. s' ∙ back (sym at' ∙ e ∙ at) ∙ sym s);
          placed = λ k p.
              let q = slot t'.segment_directory i in
              ap (λ (n : ℕ). prefix n (b.hash k)) l
              ∙ block.placed k (
                  ap (λ (r : ℕ). is_some (b.find (t.segments r).table k)) (sym s)
                  ∙ ap (λ (m : b.Rep). is_some (b.find m k)) (sym (g.kept q).table)
                  ∙ p)
              ∙ sym at;
        }

    pub grown-IsConsistent : IsConsistent t → t.global_depth ≤ 30 → IsConsistent t'
    grown-IsConsistent c fits = record {
      width =
          g.width
          ∙ ap (λ (n : ℕ). 2 * n) c.width
          ∙ omega (arith, pow_next t.global_depth t'.global_depth (omega (arith, g.depth)));
      depth = omega (arith, g.depth);
      blocks = λ i h. grown-IsBlock i c fits h;
    }
