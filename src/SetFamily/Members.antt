-- ===== src/SetFamily/Members.antt =====
-- What the loops of src/command/set_family.cc make of the members of a set.
use nano_redis.Prelude.{
  ℕ, zero, suc, ◌+◌, ◌≡◌, refl, ap, ◌∙◌, arith, min, Bool, true, false, not, ◌&&◌, ◌||◌, List, [],
  ◌∷◌, Bytes, bytes_eq, bytes_eq→eq, bytes_eq_refl, length, Bool-cases, inl, inr,
}
use nano_redis.NanoObj.{NanoObj}
use nano_redis.NanoObj.Ops.{to_string}
use nano_redis.SetFamily.{
  insert_all, erase_all, pop_members, common, intersect, insert_members, erase_members,
}
use nano_redis.SetFamily.Interface.{Sets, contains, is_distinct}

-- Is `x` the text of one of the arguments?
abbrev pub named : List NanoObj → Bytes → Bool
named [] x = false
named (arg ∷ args) x = bytes_eq (to_string arg) x || named args x

abbrev pub in_all : List (List Bytes) → Bytes → Bool
in_all [] x = true
in_all (s ∷ sets) x = contains s x && in_all sets x

contains_congr : (s : List Bytes) (m x : Bytes) → bytes_eq m x ≡ true → contains s m ≡ contains s x
contains_congr s m x h = ap (contains s) (bytes_eq→eq m x h)

module _ (c : Sets) where
  pub insert_all-contains :
      (args : List NanoObj) (s : List Bytes) (x : Bytes)
      → contains (insert_all c args s).0 x ≡ (named args x || contains s x)
  unfolding insert_all
  insert_all-contains [] s x = refl
  insert_all-contains (arg ∷ args) s x =
      insert_all-contains args (c.insert s (to_string arg)) x
      ∙ ground (arith, c.contains-insert s (to_string arg) x)

  pub length-insert_all :
      (args : List NanoObj) (s : List Bytes)
      → length (insert_all c args s).0 ≡ length s + (insert_all c args s).1
  unfolding insert_all
  length-insert_all [] s = omega arith
  length-insert_all (arg ∷ args) s =
      let m = to_string arg in
      length-insert_all args (c.insert s m) ∙ ground (arith, c.length-insert s m)

  pub erase_all-contains :
      (args : List NanoObj) (s : List Bytes) (x : Bytes)
      → contains (erase_all c args s).0 x ≡ (not (named args x) && contains s x)
  unfolding erase_all
  erase_all-contains [] s x = refl
  erase_all-contains (arg ∷ args) s x =
      erase_all-contains args (c.erase s (to_string arg)) x
      ∙ ground (arith, c.contains-erase s (to_string arg) x)

  pub length-erase_all :
      (args : List NanoObj) (s : List Bytes)
      → is_distinct s ≡ true
      → length s ≡ length (erase_all c args s).0 + (erase_all c args s).1
  unfolding erase_all
  length-erase_all [] s h = omega arith
  length-erase_all (arg ∷ args) s h =
      let m = to_string arg in
      let rest = length-erase_all args (c.erase s m) (c.erase-distinct s m h) in
      ground (arith, c.length-erase s m h, rest)

  -- Nothing is lost by the loop of SPOP and nothing is added.
  pub pop_members-contains :
      (count : ℕ) (s : List Bytes) (x : Bytes)
      → contains s x
        ≡ (contains (pop_members c count s).0 x || contains (pop_members c count s).1 x)
  unfolding pop_members
  pop_members-contains zero s x = refl
  pop_members-contains (suc count) [] x = refl
  pop_members-contains (suc count) (m ∷ s) x =
      let rest = pop_members-contains count (c.erase (m ∷ s) m) x in
      ground (arith, c.contains-erase (m ∷ s) m x, rest)

  -- The first member is there.
  length-erase_head :
      (m : Bytes) (s : List Bytes)
      → is_distinct (m ∷ s) ≡ true
      → length (c.erase (m ∷ s) m) ≡ length s
  length-erase_head m s h = let e = c.length-erase (m ∷ s) m h in ground (arith, e, bytes_eq_refl m)

  pub length-pop_members :
      (count : ℕ) (s : List Bytes)
      → is_distinct s ≡ true
      → length (pop_members c count s).0 ≡ min count (length s)
  unfolding pop_members
  length-pop_members zero s h = omega arith
  length-pop_members (suc count) [] h = omega arith
  length-pop_members (suc count) (m ∷ s) h =
      let rest = length-pop_members count (c.erase (m ∷ s) m) (c.erase-distinct (m ∷ s) m h) in
      omega (arith, rest, length-erase_head m s h)

  common-contains :
      (t s temp : List Bytes) (x : Bytes)
      → contains (common c t s temp) x ≡ (contains temp x || (contains s x && contains t x))
  unfolding common
  common-contains t [] temp x = ground arith
  common-contains t (m ∷ s) temp x =
      let rest = λ (l : List Bytes). common-contains t s l x in
      elim (Bool-cases (contains t m)) [
        | inl e ↦ rw e (rest (c.insert temp m) ∙ kept e)
        | inr e ↦ rw e (rest temp ∙ left_out e)
      ]
    where
      kept :
          contains t m ≡ true
          → (contains (c.insert temp m) x || (contains s x && contains t x))
            ≡ (contains temp x || ((bytes_eq m x || contains s x) && contains t x))
      kept e = elim (Bool-cases (bytes_eq m x)) [
        | inl h ↦ ground (arith, e, h, contains_congr t m x h, c.contains-insert temp m x)
        | inr h ↦ ground (arith, e, h, c.contains-insert temp m x)
      ]

      left_out :
          contains t m ≡ false
          → (contains temp x || (contains s x && contains t x))
            ≡ (contains temp x || ((bytes_eq m x || contains s x) && contains t x))
      left_out e = elim (Bool-cases (bytes_eq m x)) [
        | inl h ↦ ground (arith, e, h, contains_congr t m x h)
        | inr h ↦ ground (arith, e, h)
      ]

  pub intersect-contains :
      (s : List Bytes) (sets : List (List Bytes)) (x : Bytes)
      → contains (intersect c s sets) x ≡ (contains s x && in_all sets x)
  unfolding intersect
  intersect-contains s [] x = ground arith
  intersect-contains s (t ∷ sets) x =
      intersect-contains (common c t s []) sets x ∙ ground (arith, common-contains t s [] x)

  pub insert_members-contains :
      (s t : List Bytes) (x : Bytes)
      → contains (insert_members c s t) x ≡ (contains s x || contains t x)
  unfolding insert_members
  insert_members-contains s [] x = ground arith
  insert_members-contains s (m ∷ t) x =
      insert_members-contains (c.insert s m) t x ∙ ground (arith, c.contains-insert s m x)

  pub erase_members-contains :
      (s t : List Bytes) (x : Bytes)
      → contains (erase_members c s t) x ≡ (contains s x && not (contains t x))
  unfolding erase_members
  erase_members-contains s [] x = ground arith
  erase_members-contains s (m ∷ t) x =
      erase_members-contains (c.erase s m) t x ∙ ground (arith, c.contains-erase s m x)
