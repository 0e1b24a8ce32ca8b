-- ===== src/DashTable/Methods.antt =====
-- `Insert`, `Find`, `Erase` and `Clear` of src/core/dashtable.cc as a map.
use nano_redis.Prelude.{
  ℕ, ◌≡◌, refl, arith, List, sym, ap, ◌∙◌, true, ◌==◌, Bool-cases, inl, inr, ==_iff, Option, none,
  some, if◌then◌else◌,
}
use mathlib.Core.Path.{subst}
use nano_redis.DashTable.{
  Table, slot, segment_at, put_map, get_segment_index, find, write_entry, erase,
}
use nano_redis.DashTable.Interface.{Buckets, is_some}
use nano_redis.DashTable.Consistent.{prefix, local, IsConsistent, get_segment_index_lem, index-lt}
use nano_redis.DashTable.Shape.{
  SameShape, index-block, find-put_map, put_map-IsConsistent, shape-IsConsistent, shape-index,
}

module _ {K V : Type 0} (b : Buckets K V) where
  -- What a callback may do: set the versions of segments.
  pub record SameEntries (t t' : Table b) : Type 0 where
    pub shape : SameShape b t t'
    pub table : (p : ℕ) → (t'.segments p).table ≡ (t.segments p).table

  pub entries-at :
      (t t' : Table b) (s : SameEntries t t') (i : ℕ)
      → (segment_at b t' i).table ≡ (segment_at b t i).table
  entries-at t t' s i =
      s.table (slot t'.segment_directory i)
      ∙ ap (λ (d : List ℕ). (t.segments (slot d i)).table) s.shape.directory

  entries-IsConsistent : (t t' : Table b) → SameEntries t t' → IsConsistent b t → IsConsistent b t'
  entries-IsConsistent t t' s c = shape-IsConsistent b t t' s.shape c λ i h k f.
      (c.blocks i h).placed k
        (ap (λ (m : b.Rep). is_some (b.find m k)) (sym (entries-at t t' s i)) ∙ f)

  entries-find : (t t' : Table b) → SameEntries t t' → (k : K) → find b t' k ≡ find b t k
  unfolding find
  entries-find t t' s k =
      ap (λ (n : ℕ). b.find (segment_at b t' n).table k) (shape-index b t t' s.shape k)
      ∙ ap (λ (m : b.Rep). b.find m k) (entries-at t t' s (get_segment_index b t k))

  pub find_lem :
      (t : Table b) (k : K) → find b t k ≡ b.find (segment_at b t (get_segment_index b t k)).table k
  unfolding find
  find_lem t k = refl

  -- equal keys lie in the same slot
  index_congr :
      (t : Table b) (k j : K)
      → b.equal k j ≡ true
      → get_segment_index b t k ≡ get_segment_index b t j
  index_congr t k j e =
      get_segment_index_lem b t k
      ∙ ap (λ (h : ℕ). prefix t.global_depth h) (b.hash_congr k j e)
      ∙ sym (get_segment_index_lem b t j)

  -- A write to the map where `k` lies, which changes what is found under keys equal to `k` only.
  module _ (t : Table b) (k : K) (m : b.Rep) (v : Option V) (c : IsConsistent b t) where
    abbrev i : ℕ
    i = get_segment_index b t k

    find-write :
        ((j : K) → b.find m j ≡ (if b.equal k j then v else b.find (segment_at b t i).table j))
        → (j : K) → find b (put_map b t i m) j ≡ (if b.equal k j then v else find b t j)
    find-write finds j = elim (Bool-cases (b.equal k j)) [
      | inl e ↦
          let at = ap (slot t.segment_directory) (index_congr t k j e) in
          find-put_map b t i m j
          ∙ ground (
            arith,
            at,
            finds j,
            e,
            ==_iff (slot t.segment_directory (get_segment_index b t j))
                (slot t.segment_directory i),
          )
      | inr e ↦
          find-put_map b t i m j
          ∙ elim (Bool-cases
              (slot t.segment_directory (get_segment_index b t j) == slot t.segment_directory i)) [
                | inl q ↦
                    let same =
                      (==_iff (slot t.segment_directory (get_segment_index b t j))
                          (slot t.segment_directory i)).0
                        q in
                    rw (q, e)
                      (finds j
                        ∙ rw e (
                            ap (λ (p : ℕ). b.find (t.segments p).table j) (sym same)
                            ∙ sym (find_lem t j)))
                | inr q ↦ rw (q, e) refl
              ]
    ]

    write-IsConsistent :
        ((j : K) → b.find m j ≡ (if b.equal k j then v else b.find (segment_at b t i).table j))
        → IsConsistent b (put_map b t i m)
    write-IsConsistent finds = put_map-IsConsistent b t i m c (index-lt b t k c) λ j f.
        elim (Bool-cases (b.equal k j)) [
          | inl e ↦
              ap (λ (h : ℕ). prefix (local b t i) h) (sym (b.hash_congr k j e))
              ∙ index-block b t k c
          | inr e ↦ (c.blocks i (index-lt b t k c)).placed j (ground (arith, finds j, e, f))
        ]

  unfoldable pub put_entry : Table b → K → V → Table b
  put_entry t k v =
      put_map b t (get_segment_index b t k)
        (b.insert_or_assign (segment_at b t (get_segment_index b t k)).table k v)

  -- the callback writes no entry, and does not move the key
  module _ (cb : ℕ → Table b → Table b) (safe : (i : ℕ) (t : Table b) → SameEntries t (cb i t))
      (t : Table b) (c : IsConsistent b t) (k : K) where
    abbrev pub told : Table b
    told = cb (get_segment_index b t k) t

    pub told-SameEntries : SameEntries t told
    told-SameEntries = safe (get_segment_index b t k) t

    pub told-IsConsistent : IsConsistent b told
    told-IsConsistent = entries-IsConsistent t told told-SameEntries c

    pub told-index : get_segment_index b told k ≡ get_segment_index b t k
    told-index = shape-index b t told told-SameEntries.shape k

    pub write_entry-told : (v : V) → write_entry b cb t k v ≡ put_entry told k v
    unfolding write_entry put_entry
    write_entry-told v =
        ap (λ (n : ℕ). put_map b told n (b.insert_or_assign (segment_at b told n).table k v))
          (sym told-index)

    pub write_entry-IsConsistent : (v : V) → IsConsistent b (write_entry b cb t k v)
    unfolding put_entry
    write_entry-IsConsistent v = subst (IsConsistent b) (sym (write_entry-told v)) (
        write-IsConsistent told k _ (some v) told-IsConsistent
          (λ j. b.find-insert_or_assign _ k j v))

    pub find-write_entry :
        (v : V) (j : K)
        → find b (write_entry b cb t k v) j ≡ (if b.equal k j then some v else find b t j)
    unfolding put_entry
    find-write_entry v j =
        ap (λ (u : Table b). find b u j) (write_entry-told v)
        ∙ find-write told k _ (some v) told-IsConsistent (λ a. b.find-insert_or_assign _ k a v) j
        ∙ ap (λ (o : Option V). if b.equal k j then some v else o)
            (entries-find t told told-SameEntries j)

    abbrev erase_at : ℕ → Table b
    erase_at n = put_map b told n (b.erase (segment_at b told n).table k)

    erase-IsConsistent : IsConsistent b (erase b cb t k).0
    unfolding erase
    erase-IsConsistent =
        subst (λ (n : ℕ). IsConsistent b (erase_at n)) told-index
          (write-IsConsistent told k _ none told-IsConsistent (λ j. b.find-erase _ k j))

    find-erase : (j : K) → find b (erase b cb t k).0 j ≡ (if b.equal k j then none else find b t j)
    unfolding erase
    find-erase j =
        ap (λ (n : ℕ). find b (erase_at n) j) (sym told-index)
        ∙ find-write told k _ none told-IsConsistent (λ a. b.find-erase _ k a) j
        ∙ ap (λ (o : Option V). if b.equal k j then none else o)
            (entries-find t told told-SameEntries j)

    erase-found : (erase b cb t k).1 ≡ is_some (find b t k)
    unfolding erase
    erase-found =
        ap (λ (n : ℕ). is_some (b.find (segment_at b told n).table k)) (sym told-index)
        ∙ ap is_some (sym (find_lem told k) ∙ entries-find t told told-SameEntries k)

    -- `Erase` on a consistent directory, with a callback that sets versions only: the directory
    -- stays consistent, `Find` gives nothing under the key and its equals and the same as before
    -- under every other key, and the result says whether the key was there.
    pub erase_lem :
        IsConsistent b (erase b cb t k).0
        × ((j : K) → find b (erase b cb t k).0 j ≡ (if b.equal k j then none else find b t j))
        × ((erase b cb t k).1 ≡ is_some (find b t k))
    erase_lem = (erase-IsConsistent, find-erase, erase-found)
