-- ===== src/DashTable/Moving.antt =====
-- The loop of `SplitSegment` (src/core/dashtable.cc) that moves the entries of the upper half.
use nano_redis.Prelude.{
  ◌+◌, ◌≤◌, ◌≡◌, refl, arith, Bool, true, false, ◌&&◌, none, some, List, [], ◌∷◌, Bool-cases,
  Option-cases, inl, inr, if◌then◌else◌, sym, ap,
}
use mathlib.Core.Path.{subst}
use nano_redis.DashTable.{move_items}
use nano_redis.DashTable.Interface.{Buckets, is_some, listed, count, Respects}

module _ {K V : Type 0} (b : Buckets K V) (upper : K → Bool) where
  -- What the two maps hold after the moves, and no entry is there twice.
  pub record Moved (items : List K) (old new : b.Rep × b.Rep) : Type 0 where
    pub stayed :
        (j : K)
        → b.find new.0 j ≡ (if upper j && listed b.equal items j then none else b.find old.0 j)
    pub came :
        (j : K)
        → b.find new.1 j ≡ (
            if upper j && listed b.equal items j
            then (if is_some (b.find old.1 j) then b.find old.1 j else b.find old.0 j)
            else b.find old.1 j)
    pub counts :
        (p : K → Bool)
        → Respects b.equal p
        → count p (b.keys new.0) + count p (b.keys new.1)
          ≤ count p (b.keys old.0) + count p (b.keys old.1)

  move_items-nil : (source fresh : b.Rep) → move_items b upper [] (source, fresh) ≡ (source, fresh)
  unfolding move_items
  move_items-nil source fresh = refl

  move_items-lower :
      (key : K) (items : List K) (source fresh : b.Rep)
      → upper key ≡ false
      → move_items b upper (key ∷ items) (source, fresh) ≡ move_items b upper items (source, fresh)
  unfolding move_items
  move_items-lower key items source fresh h = rw h refl

  move_items-missing :
      (key : K) (items : List K) (source fresh : b.Rep)
      → b.find source key ≡ none
      → move_items b upper (key ∷ items) (source, fresh) ≡ move_items b upper items (source, fresh)
  unfolding move_items
  move_items-missing key items source fresh e =
      rw e (elim (Bool-cases (upper key)) [ inl h ↦ rw h refl | inr h ↦ rw h refl ])

  move_items-upper :
      (key : K) (items : List K) (source fresh : b.Rep) (v : V)
      → upper key ≡ true
      → b.find source key ≡ some v
      → move_items b upper (key ∷ items) (source, fresh)
        ≡ move_items b upper items (b.erase source key, b.insert fresh key v)
  unfolding move_items
  move_items-upper key items source fresh v h e = rw (h, e) refl

  pub move_items-Moved :
      (items : List K) (source fresh : b.Rep)
      → Respects b.equal upper
      → Moved items (source, fresh) (move_items b upper items (source, fresh))
  move_items-Moved [] source fresh u =
      subst (Moved [] (source, fresh)) (sym (move_items-nil source fresh)) (record {
        stayed = λ j. ground arith;
        came = λ j. ground arith;
        counts = λ p r. omega arith;
      })
  move_items-Moved (key ∷ items) source fresh u = elim (Bool-cases (upper key)) [
    | inl h ↦ elim (Option-cases (b.find source key)) [
      | inl e ↦
          let ih = move_items-Moved items source fresh u in
          subst (Moved (key ∷ items) (source, fresh))
            (sym (move_items-missing key items source fresh e))
            (record {
              stayed = λ j. ground (arith, ih.stayed j, b.find_congr source key j);
              came = λ j. ground (arith, ih.came j, b.find_congr source key j);
              counts = ih.counts;
            })
      | inr (v, e) ↦
          let ih = move_items-Moved items (b.erase source key) (b.insert fresh key v) u in
          subst (Moved (key ∷ items) (source, fresh))
            (sym (move_items-upper key items source fresh v h e))
            (record {
              stayed = λ j. ground (arith, ih.stayed j, b.find-erase source key j, u key j);
              came = λ j. ground (
                arith,
                ih.came j,
                b.find-erase source key j,
                b.find-insert fresh key j v,
                b.find_congr source key j,
                b.find_congr fresh key j,
                u key j,
              );
              counts = λ p r. ground (
                arith,
                ih.counts p r,
                b.count-insert-le p fresh key v,
                b.count-erase-le p source key r,
                ap is_some e,
              );
            })
    ]
    | inr h ↦
        let ih = move_items-Moved items source fresh u in
        subst (Moved (key ∷ items) (source, fresh))
          (sym (move_items-lower key items source fresh h))
          (record {
            stayed = λ j. ground (arith, ih.stayed j, u key j);
            came = λ j. ground (arith, ih.came j, u key j);
            counts = ih.counts;
          })
  ]
