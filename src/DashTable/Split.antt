-- ===== src/DashTable/Split.antt =====
-- `SplitSegment` (src/core/dashtable.cc) as a whole: the doubling and the halving together.
use nano_redis.Prelude.{
  ℕ, ◌+◌, ◌-◌, ◌*◌, ◌/◌, ◌^◌, ◌≤◌, ◌<◌, ◌≡◌, arith, length, sym, ap, ◌∙◌, Bool, ◌==◌, Bool-cases,
  inl, inr, ==_iff,
}
use nano_redis.Prelude.Powers.{block_twice, prefix-prefix}
use mathlib.Core.Path.{subst}
use nano_redis.DashTable.{
  Table, slot, segment_at, get_segment_index, find, double_directory, split_chunk, split_segment,
}
use nano_redis.DashTable.Interface.{Buckets, count, Respects}
use nano_redis.DashTable.Doubling.{Grown, double_directory-Grown}
use nano_redis.DashTable.Consistent.{
  prefix, local, chunk, IsBlock, IsConsistent, get_segment_index_lem, index-lt, grown-chunk,
  grown-start, grown-IsConsistent,
}
use nano_redis.DashTable.Splitting.{split_chunk-Halved}
use nano_redis.DashTable.Halves.{split-IsConsistent, split-find, split-deeper}

module _ {K V : Type 0} (b : Buckets K V) where
  -- What a split leaves: the segment of a key of the chunk has become deeper, and no larger.
  pub record Split (t : Table b) (i : ℕ) (t' : Table b) : Type 0 where
    pub consistent : IsConsistent b t'
    pub finds : (k : K) → find b t' k ≡ find b t k
    pub max_segment_size : t'.max_segment_size ≡ t.max_segment_size
    pub deeper :
        (k : K)
        → get_segment_index b t k / chunk b t i ≡ i / chunk b t i
        → (local b t' (get_segment_index b t' k) ≡ local b t i + 1)
          × ((p : K → Bool)
              → Respects b.equal p
              → count p (b.keys (segment_at b t' (get_segment_index b t' k)).table)
                ≤ count p (b.keys (segment_at b t i).table))

  chunk-Split :
      (t : Table b) (i : ℕ)
      → IsConsistent b t
      → i < length t.segment_directory
      → local b t i < t.global_depth
      → Split t i (split_chunk b t i)
  chunk-Split t i c h l =
      let t' = split_chunk b t i in
      let s = split_chunk-Halved b t i c h l in
      let index : (k : K) → get_segment_index b t' k ≡ get_segment_index b t k = λ k.
        get_segment_index_lem b t' k
        ∙ ap (λ (d : ℕ). prefix d (b.hash k)) s.depth
        ∙ sym (get_segment_index_lem b t k) in
      record {
        consistent = split-IsConsistent b t i c h l t' s;
        finds = split-find b t i c h l t' s;
        max_segment_size = s.max_segment_size;
        deeper = λ k e.
            let at = index k in
            let (d, n) =
              split-deeper b t i c h l t' s (get_segment_index b t k) (index-lt b t k c) e in
            (
              ap (local b t') at ∙ d,
              λ p r.
                  subst
                    (λ (j : ℕ).
                      count p (b.keys (segment_at b t' j).table)
                      ≤ count p (b.keys (segment_at b t i).table))
                    (sym at) (n p r),
            );
      }

  grown-index :
      (t t' : Table b) (k : K)
      → IsConsistent b t
      → t'.global_depth ≡ t.global_depth + 1
      → get_segment_index b t' k / 2 ≡ get_segment_index b t k
  grown-index t t' k c d =
      let one : 2 ≡ 2 ^ (t'.global_depth - t.global_depth) =
        let e : t'.global_depth - t.global_depth ≡ 1 = omega (arith, d) in
        ap (λ (n : ℕ). 2 ^ n) (sym e) in
      (λ i. get_segment_index_lem b t' k i / one i)
      ∙ prefix-prefix t'.global_depth t.global_depth (b.hash k) (omega (arith, d))
          (omega (arith, d, c.depth))
      ∙ sym (get_segment_index_lem b t k)

  module _ (t t' : Table b) (g : Grown b t t') (c : IsConsistent b t)
      (fits : t.global_depth ≤ 30) where
    up : t'.global_depth ≡ t.global_depth + 1
    up = omega (arith, g.depth)

    grown-find : (k : K) → find b t' k ≡ find b t k
    unfolding find
    grown-find k =
        let i = get_segment_index b t' k in
        let same : slot t'.segment_directory i
            ≡ slot t.segment_directory (get_segment_index b t k) =
          g.slots i (omega (arith, index-lt b t' k (grown-IsConsistent b t t' g c fits), g.width))
          ∙ ap (slot t.segment_directory) (grown-index t t' k c up) in
        ap (λ (m : b.Rep). b.find m k) (g.kept (slot t'.segment_directory i)).table
        ∙ ap (λ (p : ℕ). b.find (t.segments p).table k) same

    grown-Split :
        (i : ℕ)
        → i < length t.segment_directory
        → Split t' (i * 2) (split_chunk b t' (i * 2))
        → Split t i (split_chunk b t' (i * 2))
    grown-Split i h s =
        let block : IsBlock b t (i * 2 / 2) = c.blocks (i * 2 / 2) (omega arith) in
        let (l, w) = grown-chunk b t t' g (i * 2) (omega arith) up block in
        let back : i * 2 / 2 ≡ i = omega arith in
        let wide : chunk b t' (i * 2) ≡ chunk b t i * 2 =
          w ∙ ap (λ (n : ℕ). chunk b t n * 2) back in
        let place : (n : ℕ) → n / chunk b t' (i * 2) ≡ n / 2 / chunk b t i =
          λ n. ap (λ (d : ℕ). n / d) wide ∙ block_twice n (chunk b t i) in
        let table : (segment_at b t' (i * 2)).table ≡ (segment_at b t i).table =
          (g.kept (slot t'.segment_directory (i * 2))).table
          ∙ ap (λ (p : ℕ). (t.segments p).table)
              (g.slots (i * 2) (omega arith) ∙ ap (slot t.segment_directory) back) in
        record {
          consistent = s.consistent;
          finds = λ k. s.finds k ∙ grown-find k;
          max_segment_size = s.max_segment_size ∙ g.max_segment_size;
          deeper = λ k e.
              let (d, n) = s.deeper k (
                place (get_segment_index b t' k)
                ∙ ap (λ (m : ℕ). m / chunk b t i) (grown-index t t' k c up)
                ∙ e
                ∙ sym (place (i * 2) ∙ ap (λ (m : ℕ). m / chunk b t i) back)) in
              (
                d ∙ ap (λ (m : ℕ). m + 1) (l ∙ ap (local b t) back),
                λ p r. omega (arith, n p r, ap (λ (m : b.Rep). count p (b.keys m)) table),
              );
        }

  -- `SplitSegment` of a slot of a consistent directory, whose segment has at most 30 bits of depth:
  -- the directory stays consistent, whether it is doubled or not, and `Find` gives the same under
  -- every key; a key of the split chunk lies in a segment one level deeper, which has no more keys
  -- of any kind than the old one.
  pub split_segment-Split :
      (t : Table b) (i : ℕ)
      → IsConsistent b t
      → i < length t.segment_directory
      → local b t i ≤ 30
      → Split t i (split_segment b t i)
  unfolding split_segment
  split_segment-Split t i c h l = elim (Bool-cases (local b t i == t.global_depth)) [
    | inl e ↦
        let e' : local b t i ≡ t.global_depth = (==_iff (local b t i) t.global_depth).0 e in
        let t' = double_directory b t in
        let g = double_directory-Grown b t in
        let fits : t.global_depth ≤ 30 = omega (arith, e') in
        let one : chunk b t i ≡ 1 =
          let z : t.global_depth - local b t i ≡ 0 = omega (arith, e') in ap (λ (n : ℕ). 2 ^ n) z in
        let id : (t'.segments (slot t.segment_directory i)).segment_id ≡ i * 2 =
          grown-start b t t' g i c h ∙ ap (λ (n : ℕ). i / n * n * 2) one ∙ omega arith in
        let deep : local b t' (i * 2) < t'.global_depth = omega (
          arith,
          (grown-chunk b t t' g (i * 2) (omega arith) (up t t' g c fits)
              (c.blocks (i * 2 / 2) (omega arith))).0,
          (c.blocks (i * 2 / 2) (omega arith)).shallow,
          up t t' g c fits,
        ) in
        rw e (
          subst (λ (n : ℕ). Split t i (split_chunk b t' n)) (sym id)
            (grown-Split t t' g c fits i h (
              chunk-Split t' (i * 2) (grown-IsConsistent b t t' g c fits) (omega (arith, g.width))
                deep)))
    | inr e ↦ rw e (chunk-Split t i c h (ground (arith, e, (c.blocks i h).shallow)))
  ]
