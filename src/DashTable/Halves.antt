-- ===== src/DashTable/Halves.antt =====
-- A split of a chunk (src/core/dashtable.cc): the three kinds of slots, and the entries.
use nano_redis.Prelude.{
  ℕ, ◌+◌, ◌-◌, ◌*◌, ◌/◌, ◌^◌, ◌≤◌, ◌<◌, ◌≡◌, ◌≢◌, ◌↔◌, refl, arith, length, sym, ap, ◌∙◌, true,
  Bool, none, if◌then◌else◌, ◌==◌, Bool-cases, inl, inr, ==_iff,
}
use nano_redis.Prelude.Powers.{block-half, prefix-prefix, pow_next}
use nano_redis.DashTable.{Segment, Table, slot, segment_at, get_segment_index, find}
use nano_redis.DashTable.Interface.{Buckets, is_some, count, Respects}
use nano_redis.DashTable.Moving.{Moved, move_items-Moved}
use nano_redis.DashTable.Consistent.{
  prefix, local, chunk, IsBlock, IsConsistent, get_segment_index_lem, index-lt,
}
use nano_redis.DashTable.Splitting.{half, upper_block, goes_up, parts, Halved}

module _ {K V : Type 0} (b : Buckets K V) (t : Table b) (i : ℕ) where
  goes_up-Respects : Respects b.equal (goes_up b t i)
  goes_up-Respects k j e =
      ap (λ (n : ℕ). prefix t.global_depth n / half b t i == upper_block b t i) (b.hash_congr k j e)

  moved :
      Moved b
        (goes_up b t i)
        (b.keys (segment_at b t i).table)
        ((segment_at b t i).table, b.empty)
        (parts b t i)
  moved =
      move_items-Moved b (goes_up b t i) (b.keys (segment_at b t i).table) (segment_at b t i).table
        b.empty goes_up-Respects

  -- what is found in the two halves
  pub find-lower :
      (k : K)
      → b.find (parts b t i).0 k
        ≡ (if goes_up b t i k then none else b.find (segment_at b t i).table k)
  find-lower k = ground (arith, moved.stayed k, b.listed-keys (segment_at b t i).table k)

  pub find-upper :
      (k : K)
      → b.find (parts b t i).1 k
        ≡ (if goes_up b t i k then b.find (segment_at b t i).table k else none)
  find-upper k =
      ground (arith, moved.came k, b.listed-keys (segment_at b t i).table k, b.find-empty k)

  pub count-parts :
      (p : K → Bool)
      → Respects b.equal p
      → count p (b.keys (parts b t i).0) + count p (b.keys (parts b t i).1)
        ≤ count p (b.keys (segment_at b t i).table)
  count-parts p r = omega (arith, moved.counts p r, b.count-empty p)

  module _ (c : IsConsistent b t) (h : i < length t.segment_directory)
      (l : local b t i < t.global_depth) (t' : Table b) (s : Halved b t i t') where
    x : ℕ
    x = i / chunk b t i

    size : chunk b t i ≡ half b t i * 2
    size =
        pow_next (t.global_depth - (local b t i + 1)) (t.global_depth - local b t i) (omega arith)

    chunk_of : (j : ℕ) → j / chunk b t i ≡ j / half b t i / 2
    chunk_of j = ap (λ (n : ℕ). j / n) size ∙ block-half j (half b t i)

    data Kind (j : ℕ) : Type 0 where
      upper : j / half b t i ≡ upper_block b t i → slot t'.segment_directory j ≡ t.next → Kind j
      lower :
          j / half b t i ≡ i / chunk b t i * 2
          → slot t'.segment_directory j ≡ slot t.segment_directory i
          → Kind j
      outside :
          j / chunk b t i ≢ i / chunk b t i
          → slot t'.segment_directory j ≡ slot t.segment_directory j
          → Kind j

    kind : (j : ℕ) → j < length t.segment_directory → Kind j
    kind j m = elim (Bool-cases (j / half b t i == upper_block b t i)) [
      | inl e ↦
          Kind.upper ((==_iff (j / half b t i) (upper_block b t i)).0 e) (s.slots j m ∙ rw e refl)
      | inr e ↦
          let old : slot t'.segment_directory j ≡ slot t.segment_directory j =
            s.slots j m ∙ rw e refl in
          elim (Bool-cases (j / chunk b t i == i / chunk b t i)) [
            | inl q ↦
                let q' = (==_iff (j / chunk b t i) (i / chunk b t i)).0 q in
                Kind.lower (ground (arith, chunk_of j, q', e))
                  (old ∙ ((c.blocks i h).shared j m).1 q')
            | inr q ↦ Kind.outside (λ q'. ground (arith, q, q')) old
          ]
    ]

    -- a slot of one of the halves, from what is true of its segment
    in_half :
        (j q y : ℕ) (m : b.Rep)
        → slot t'.segment_directory j ≡ q
        → j / half b t i ≡ y
        → q < t'.next
        → t'.segments q ≡ record {
          table = m;
          local_depth = local b t i + 1;
          segment_id = y * half b t i;
          version = (segment_at b t i).version;
        }
        → ((a : ℕ)
            → a < length t.segment_directory
            → (slot t'.segment_directory a ≡ q) ↔ (a / half b t i ≡ y))
        → ((k : K) → is_some (b.find m k) ≡ true → prefix (local b t i + 1) (b.hash k) ≡ y)
        → IsBlock b t' j
    in_half j q y m at number below seg sharing keys =
        let e = ap t'.segments at ∙ seg in
        let deep : local b t' j ≡ local b t i + 1 = ap (λ (r : Segment b.Rep). r.local_depth) e in
        let w : chunk b t' j ≡ half b t i = λ k. 2 ^ (s.depth k - deep k) in
        let mine : j / chunk b t' j ≡ y = ap (λ (n : ℕ). j / n) w ∙ number in
        record {
          shallow = omega (arith, deep, s.depth, l);
          made = rw at below;
          starts = ap (λ (r : Segment b.Rep). r.segment_id) e ∙ sym (λ k. mine k * w k);
          shared = λ a n.
              let (to, back) = sharing a (omega (arith, s.width)) in
              (
                λ r. ap (λ (d : ℕ). a / d) w ∙ to (r ∙ at) ∙ sym mine,
                λ r. back (sym (ap (λ (d : ℕ). a / d) w) ∙ r ∙ mine) ∙ sym at,
              );
          placed = λ k f.
              ap (λ (d : ℕ). prefix d (b.hash k)) deep
              ∙ keys k (ap (λ (r : Segment b.Rep). is_some (b.find r.table k)) (sym e) ∙ f)
              ∙ sym mine;
        }

    -- the bits of a key that decide between the halves
    bits : (k : K) → prefix (local b t i + 1) (b.hash k) / 2 ≡ prefix (local b t i) (b.hash k)
    bits k =
        ap (λ (d : ℕ). prefix (local b t i + 1) (b.hash k) / d) one
        ∙ prefix-prefix (local b t i + 1) (local b t i) (b.hash k) (omega arith)
            (omega (arith, c.depth))
      where
        one : 2 ≡ 2 ^ (local b t i + 1 - local b t i)
        one =
            let e : local b t i + 1 - local b t i ≡ 1 = omega arith in ap (λ (d : ℕ). 2 ^ d) (sym e)

    goes : (k : K) → goes_up b t i k ≡ (prefix (local b t i + 1) (b.hash k) == upper_block b t i)
    goes k =
        ap (λ (n : ℕ). n == upper_block b t i)
          (prefix-prefix t.global_depth (local b t i + 1) (b.hash k) (omega arith)
            (omega (arith, c.depth)))

    kinds-shared :
        (a : ℕ)
        → a < length t.segment_directory
        → ((slot t'.segment_directory a ≡ t.next) ↔ (a / half b t i ≡ upper_block b t i))
          × ((slot t'.segment_directory a ≡ slot t.segment_directory i)
              ↔ (a / half b t i ≡ i / chunk b t i * 2))
    kinds-shared a m = elim (kind a m) [
      | Kind.upper n e ↦ ground (arith, n, e, (c.blocks i h).made)
      | Kind.lower n e ↦ ground (arith, n, e, (c.blocks i h).made)
      | Kind.outside n e ↦
          let apart : slot t.segment_directory a ≢ slot t.segment_directory i =
            λ q. n (((c.blocks i h).shared a m).0 q) in
          ground (arith, n, e, apart, (c.blocks a m).made, chunk_of a)
    ]

    -- the segment of a slot outside the chunk
    outside-segment :
        (j : ℕ)
        → j < length t.segment_directory
        → j / chunk b t i ≢ i / chunk b t i
        → slot t'.segment_directory j ≡ slot t.segment_directory j
        → segment_at b t' j ≡ segment_at b t j
    outside-segment j m n e =
        ap t'.segments e
        ∙ s.others (slot t.segment_directory j) (λ q. omega (arith, q, (c.blocks j m).made))
            (λ q. n (((c.blocks i h).shared j m).0 q))

    outside-IsBlock :
        (j : ℕ)
        → j < length t.segment_directory
        → j / chunk b t i ≢ i / chunk b t i
        → slot t'.segment_directory j ≡ slot t.segment_directory j
        → IsBlock b t' j
    outside-IsBlock j m n e =
        let o = c.blocks j m in
        let g = outside-segment j m n e in
        let deep : local b t' j ≡ local b t j = ap (λ (r : Segment b.Rep). r.local_depth) g in
        let w : chunk b t' j ≡ chunk b t j = λ k. 2 ^ (s.depth k - deep k) in
        let mine : j / chunk b t' j ≡ j / chunk b t j = ap (λ (d : ℕ). j / d) w in
        record {
          shallow = omega (arith, deep, s.depth, o.shallow);
          made = omega (arith, e, o.made, s.next);
          starts = ap (λ (r : Segment b.Rep). r.segment_id) g ∙ o.starts ∙ sym (λ k. mine k * w k);
          shared = λ a r.
              let v = ap (λ (d : ℕ). a / d) w in
              let (to, back) = o.shared a (omega (arith, s.width)) in
              let same : (slot t'.segment_directory a ≡ slot t.segment_directory j)
                  ↔ (slot t.segment_directory a ≡ slot t.segment_directory j) =
                others-shared a j (omega (arith, s.width)) m n in
              (
                λ q. v ∙ to (same.0 (q ∙ e)) ∙ sym mine,
                λ q. same.1 (back (sym v ∙ q ∙ mine)) ∙ sym e,
              );
          placed = λ k f.
              ap (λ (d : ℕ). prefix d (b.hash k)) deep
              ∙ o.placed k (ap (λ (r : Segment b.Rep). is_some (b.find r.table k)) (sym g) ∙ f)
              ∙ sym mine;
        }
      where
        others-shared :
            (a j : ℕ)
            → a < length t.segment_directory
            → (m : j < length t.segment_directory) → j / chunk b t i ≢ i / chunk b t i
            → (slot t'.segment_directory a ≡ slot t.segment_directory j)
              ↔ (slot t.segment_directory a ≡ slot t.segment_directory j)
        others-shared a j r m n =
            let apart : slot t.segment_directory j ≢ slot t.segment_directory i =
              λ q. n (((c.blocks i h).shared j m).0 q) in
            elim (kind a r) [
              | Kind.upper u e ↦
                  let same = ((c.blocks i h).shared a r).1 (ground (arith, u, chunk_of a)) in
                  ground (arith, e, same, apart, (c.blocks j m).made)
              | Kind.lower u e ↦
                  let same = ((c.blocks i h).shared a r).1 (ground (arith, u, chunk_of a)) in
                  ground (arith, e, same, apart, (c.blocks j m).made)
              | Kind.outside u e ↦ ground (arith, e)
            ]

    split-IsBlock : (j : ℕ) → j < length t'.segment_directory → IsBlock b t' j
    split-IsBlock j m = elim (kind j (omega (arith, s.width))) [
      | Kind.upper n e ↦
          in_half j t.next (upper_block b t i) (parts b t i).1 e n (omega (arith, s.next)) s.fresh
            (λ a r. (kinds-shared a r).0) (λ k f. ground (arith, f, find-upper k, goes k))
      | Kind.lower n e ↦
          in_half j (slot t.segment_directory i) (i / chunk b t i * 2) (parts b t i).0 e n
            (omega (arith, s.next, (c.blocks i h).made)) s.source (λ a r. (kinds-shared a r).1)
            (λ k f. ground (arith, f, find-lower k, goes k, bits k, (c.blocks i h).placed k))
      | Kind.outside n e ↦ outside-IsBlock j (omega (arith, s.width)) n e
    ]

    pub split-IsConsistent : IsConsistent b t'
    split-IsConsistent = record {
      width = s.width ∙ c.width ∙ λ k. 2 ^ (sym s.depth k);
      depth = omega (arith, s.depth, c.depth);
      blocks = split-IsBlock;
    }

    pub split-find : (k : K) → find b t' k ≡ find b t k
    unfolding find
    split-find k =
        let j = get_segment_index b t k in
        let index : get_segment_index b t' k ≡ j =
          get_segment_index_lem b t' k
          ∙ ap (λ (d : ℕ). prefix d (b.hash k)) s.depth
          ∙ sym (get_segment_index_lem b t k) in
        let up : goes_up b t i k ≡ (j / half b t i == upper_block b t i) =
          ap (λ (n : ℕ). n / half b t i == upper_block b t i) (sym (get_segment_index_lem b t k)) in
        let back : j / chunk b t i ≡ i / chunk b t i
            → find b t k ≡ b.find (segment_at b t i).table k =
          λ q.
            ap (λ (r : ℕ). b.find (t.segments r).table k)
              (((c.blocks i h).shared j (index-lt b t k c)).1 q) in
        ap (λ (n : ℕ). b.find (segment_at b t' n).table k) index
        ∙ elim (kind j (index-lt b t k c)) [
          | Kind.upper n e ↦
              ap (λ (r : Segment b.Rep). b.find r.table k) (ap t'.segments e ∙ s.fresh)
              ∙ ground (arith, find-upper k, up, n, back (ground (arith, n, chunk_of j)))
          | Kind.lower n e ↦
              ap (λ (r : Segment b.Rep). b.find r.table k) (ap t'.segments e ∙ s.source)
              ∙ ground (arith, find-lower k, up, n, back (ground (arith, n, chunk_of j)))
          | Kind.outside n e ↦
              ap (λ (r : Segment b.Rep). b.find r.table k)
                (outside-segment j (index-lt b t k c) n e)
        ]

    -- the segment of a slot of the chunk is one level deeper, and no larger
    pub split-deeper :
        (j : ℕ)
        → j < length t.segment_directory
        → j / chunk b t i ≡ i / chunk b t i
        → (local b t' j ≡ local b t i + 1)
          × ((p : K → Bool)
              → Respects b.equal p
              → count p (b.keys (segment_at b t' j).table)
                ≤ count p (b.keys (segment_at b t i).table))
    split-deeper j m q = elim (kind j m) [
      | Kind.upper n e ↦
          let g = ap t'.segments e ∙ s.fresh in
          (
            ap (λ (r : Segment b.Rep). r.local_depth) g,
            λ p r.
                rw (ap (λ (u : Segment b.Rep). count p (b.keys u.table)) g)
                  (omega (arith, count-parts p r)),
          )
      | Kind.lower n e ↦
          let g = ap t'.segments e ∙ s.source in
          (
            ap (λ (r : Segment b.Rep). r.local_depth) g,
            λ p r.
                rw (ap (λ (u : Segment b.Rep). count p (b.keys u.table)) g)
                  (omega (arith, count-parts p r)),
          )
      | Kind.outside n e ↦ absurd (n q)
    ]
