-- ===== src/DashTable/Shape.antt =====
-- Steps of src/core/dashtable.cc that leave the directory as it is: writes to the maps and versions.
use nano_redis.Prelude.{
  ℕ, ◌-◌, ◌*◌, ◌/◌, ◌^◌, ◌<◌, ◌≡◌, refl, arith, List, length, sym, ap, ◌∙◌, true, ◌==◌, Bool-cases,
  inl, inr, ==_iff, if◌then◌else◌,
}
use mathlib.Core.Path.{subst}
use nano_redis.Prelude.Powers.{prefix-prefix}
use nano_redis.DashTable.{Segment, Table, slot, write, segment_at, put_map, get_segment_index, find}
use nano_redis.DashTable.Interface.{Buckets, is_some}
use nano_redis.DashTable.Consistent.{
  prefix, local, chunk, IsConsistent, get_segment_index_lem, index-lt,
}

pub write_map :
    {Rep : Type 0} (s : ℕ → Segment Rep) (p : ℕ) (m : Rep) (q : ℕ)
    → ((write s p (record (s p) { table = m }) q).table ≡ (if q == p then m else (s q).table))
      × ((write s p (record (s p) { table = m }) q).local_depth ≡ (s q).local_depth)
      × ((write s p (record (s p) { table = m }) q).segment_id ≡ (s q).segment_id)
write_map s p m q = elim (Bool-cases (q == p)) [
  | inl e ↦
      let same = sym ((==_iff q p).0 e) in
      rw e (refl, ap (λ (r : ℕ). (s r).local_depth) same, ap (λ (r : ℕ). (s r).segment_id) same)
  | inr e ↦ rw e (refl, refl, refl)
]

module _ {K V : Type 0} (b : Buckets K V) where
  -- The tables differ in the maps and the versions of the segments at most.
  pub record SameShape (t t' : Table b) : Type 0 where
    pub directory : t'.segment_directory ≡ t.segment_directory
    pub next : t'.next ≡ t.next
    pub global_depth : t'.global_depth ≡ t.global_depth
    pub max_segment_size : t'.max_segment_size ≡ t.max_segment_size
    pub local_depth : (p : ℕ) → (t'.segments p).local_depth ≡ (t.segments p).local_depth
    pub segment_id : (p : ℕ) → (t'.segments p).segment_id ≡ (t.segments p).segment_id

  module _ (t t' : Table b) (s : SameShape t t') where
    shape-local : (i : ℕ) → local b t' i ≡ local b t i
    shape-local i =
        s.local_depth (slot t'.segment_directory i)
        ∙ ap (λ (d : List ℕ). (t.segments (slot d i)).local_depth) s.directory

    shape-chunk : (i : ℕ) → chunk b t' i ≡ chunk b t i
    shape-chunk i = λ k. 2 ^ (s.global_depth k - shape-local i k)

    pub shape-index : (k : K) → get_segment_index b t' k ≡ get_segment_index b t k
    shape-index k =
        get_segment_index_lem b t' k
        ∙ ap (λ (d : ℕ). prefix d (b.hash k)) s.global_depth
        ∙ sym (get_segment_index_lem b t k)

    pub shape-IsConsistent :
        IsConsistent b t
        → ((i : ℕ)
            → i < length t.segment_directory
            → (k : K) → is_some (b.find (segment_at b t' i).table k) ≡ true
            → prefix (local b t i) (b.hash k) ≡ i / chunk b t i)
        → IsConsistent b t'
    shape-IsConsistent c keys = record {
      width = ap (λ (d : List ℕ). length d) s.directory ∙ c.width ∙ λ k. 2 ^ (sym s.global_depth k);
      depth = omega (arith, s.global_depth, c.depth);
      blocks = λ i h.
          let h' : i < length t.segment_directory =
            subst (λ (d : List ℕ). i < length d) s.directory h in
          let o = c.blocks i h' in
          record {
            shallow = omega (arith, shape-local i, s.global_depth, o.shallow);
            made = omega (arith, ap (λ (d : List ℕ). slot d i) s.directory, s.next, o.made);
            starts =
                s.segment_id (slot t'.segment_directory i)
                ∙ ap (λ (d : List ℕ). (t.segments (slot d i)).segment_id) s.directory
                ∙ o.starts
                ∙ sym (λ k. i / shape-chunk i k * shape-chunk i k);
            shared = λ j m.
                let (to, back) = o.shared j (subst (λ (d : List ℕ). j < length d) s.directory m) in
                let at = λ (n : ℕ). ap (λ (d : List ℕ). slot d n) s.directory in
                let place = λ (n : ℕ). ap (λ (d : ℕ). n / d) (shape-chunk i) in
                (
                  λ e. place j ∙ to (sym (at j) ∙ e ∙ at i) ∙ sym (place i),
                  λ e. at j ∙ back (sym (place j) ∙ e ∙ place i) ∙ sym (at i),
                );
            placed = λ k f.
                ap (λ (d : ℕ). prefix d (b.hash k)) (shape-local i)
                ∙ keys i h' k f
                ∙ sym (ap (λ (d : ℕ). i / d) (shape-chunk i));
          };
    }

  -- Equal prefixes: the key belongs to the chunk of its slot.
  pub index-block :
      (t : Table b) (k : K)
      → IsConsistent b t
      → prefix (local b t (get_segment_index b t k)) (b.hash k)
        ≡ get_segment_index b t k / chunk b t (get_segment_index b t k)
  index-block t k c =
      let i = get_segment_index b t k in
      sym (
        prefix-prefix t.global_depth (local b t i) (b.hash k)
          (c.blocks i (index-lt b t k c)).shallow (omega (arith, c.depth)))
      ∙ ap (λ (n : ℕ). n / chunk b t i) (sym (get_segment_index_lem b t k))

  pub put_map-SameShape : (t : Table b) (i : ℕ) (m : b.Rep) → SameShape t (put_map b t i m)
  put_map-SameShape t i m = record {
    directory = refl;
    next = refl;
    global_depth = refl;
    max_segment_size = refl;
    local_depth = λ p. (write_map t.segments (slot t.segment_directory i) m p).1;
    segment_id = λ p. (write_map t.segments (slot t.segment_directory i) m p).2;
  }

  -- what a slot holds after a write to the map of slot `i`
  pub put_map-at :
      (t : Table b) (i j : ℕ) (m : b.Rep)
      → (segment_at b (put_map b t i m) j).table ≡ (
          if slot t.segment_directory j == slot t.segment_directory i
          then m
          else (segment_at b t j).table)
  put_map-at t i j m =
      (write_map t.segments (slot t.segment_directory i) m (slot t.segment_directory j)).0

  -- what is found after a write to the map of slot `i`
  pub find-put_map :
      (t : Table b) (i : ℕ) (m : b.Rep) (k : K)
      → find b (put_map b t i m) k ≡ (
          if slot t.segment_directory (get_segment_index b t k) == slot t.segment_directory i
          then b.find m k
          else find b t k)
  unfolding find
  find-put_map t i m k =
      let j = get_segment_index b t k in
      ap (λ (n : ℕ). b.find (segment_at b (put_map b t i m) n).table k)
        (shape-index t (put_map b t i m) (put_map-SameShape t i m) k)
      ∙ ap (λ (r : b.Rep). b.find r k) (put_map-at t i j m)
      ∙ elim (Bool-cases (slot t.segment_directory j == slot t.segment_directory i)) [
        | inl e ↦ rw e refl
        | inr e ↦ rw e refl
      ]

  -- The write keeps the invariant where the new map has keys of the chunk only.
  pub put_map-IsConsistent :
      (t : Table b) (i : ℕ) (m : b.Rep)
      → IsConsistent b t
      → i < length t.segment_directory
      → ((k : K) → is_some (b.find m k) ≡ true → prefix (local b t i) (b.hash k) ≡ i / chunk b t i)
      → IsConsistent b (put_map b t i m)
  put_map-IsConsistent t i m c h keys =
      shape-IsConsistent t (put_map b t i m) (put_map-SameShape t i m) c λ j l k f.
        let at = put_map-at t i j m in
        elim (Bool-cases (slot t.segment_directory j == slot t.segment_directory i)) [
          | inl e ↦
              let q = (==_iff (slot t.segment_directory j) (slot t.segment_directory i)).0 e in
              let deep : local b t j ≡ local b t i = ap (λ (p : ℕ). (t.segments p).local_depth) q in
              let w : chunk b t j ≡ chunk b t i = λ n. 2 ^ (t.global_depth - deep n) in
              let found : (segment_at b (put_map b t i m) j).table ≡ m = at ∙ rw e refl in
              ap (λ (d : ℕ). prefix d (b.hash k)) deep
              ∙ keys k (ap (λ (r : b.Rep). is_some (b.find r k)) (sym found) ∙ f)
              ∙ sym (((c.blocks i h).shared j l).0 q)
              ∙ ap (λ (d : ℕ). j / d) (sym w)
          | inr e ↦
              let found : (segment_at b (put_map b t i m) j).table ≡ (segment_at b t j).table =
                at ∙ rw e refl in
              (c.blocks j l).placed k (ap (λ (r : b.Rep). is_some (b.find r k)) (sym found) ∙ f)
        ]
