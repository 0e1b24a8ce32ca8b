-- ===== src/Database/Assoc.antt =====
-- An association list as a table of a database (src/core/database.cc).
use nano_redis.Prelude.{
  ◌≡◌, refl, arith, true, false, Option, none, some, List, [], ◌∷◌, if◌then◌else◌,
}
use nano_redis.NanoObj.{NanoObj}
use nano_redis.NanoObj.Ops.{obj_eq}
use nano_redis.NanoObj.Equality.{obj_eq_symm, obj_eq_trans}
use nano_redis.Database.Interface.{Table, is_some}

module _ {V : Type 0} where
  abbrev lookup : List (NanoObj × V) → NanoObj → Option V
  lookup [] k = none
  lookup ((j, v) ∷ t) k = if obj_eq j k then some v else lookup t k

  abbrev without : List (NanoObj × V) → NanoObj → List (NanoObj × V)
  without [] k = []
  without ((j, v) ∷ t) k = let rest = without t k in if obj_eq k j then rest else (j, v) ∷ rest

  abbrev put : List (NanoObj × V) → NanoObj → V → List (NanoObj × V)
  put t k v = (k, v) ∷ without t k

  pub lookup_congr :
      (t : List (NanoObj × V)) (k j : NanoObj) → obj_eq k j ≡ true → lookup t k ≡ lookup t j
  lookup_congr [] k j h = refl
  lookup_congr ((i, v) ∷ t) k j h =
      ground (arith, lookup_congr t k j, obj_eq_trans i k j, obj_eq_trans i j k, obj_eq_symm k j)

  pub lookup_unequal :
      (t : List (NanoObj × V)) (k : NanoObj) → obj_eq k k ≡ false → lookup t k ≡ none
  lookup_unequal [] k h = refl
  lookup_unequal ((i, v) ∷ t) k h =
      ground (arith, lookup_unequal t k, obj_eq_symm i k, obj_eq_trans k i k)

  pub lookup-without :
      (t : List (NanoObj × V)) (k j : NanoObj)
      → lookup (without t k) j ≡ (if obj_eq k j then none else lookup t j)
  lookup-without [] k j = ground arith
  lookup-without ((i, v) ∷ t) k j =
      ground (arith, lookup-without t k j, obj_eq_trans k i j, obj_eq_trans k j i, obj_eq_symm i j)

  pub lookup-put :
      (t : List (NanoObj × V)) (k j : NanoObj) (v : V)
      → lookup (put t k v) j ≡ (if obj_eq k j then some v else lookup t j)
  lookup-put t k j v = ground (arith, lookup-without t k j)

  abbrev overwrite : List (NanoObj × V) → NanoObj → V → List (NanoObj × V)
  overwrite t k v = if is_some (lookup t k) then put t k v else t

  pub lookup-overwrite :
      (t : List (NanoObj × V)) (k j : NanoObj) (v : V)
      → lookup (overwrite t k v) j
        ≡ (if obj_eq k j then (if is_some (lookup t k) then some v else none) else lookup t j)
  lookup-overwrite t k j v = ground (arith, lookup-put t k j v, lookup_congr t k j)

  abbrev pub assoc_table : Table V
  assoc_table = record {
    Rep = List (NanoObj × V);
    empty = [];
    find = lookup;
    insert = put;
    assign = overwrite;
    erase = without;
    clear = λ t. [];
    entries = λ t. t;
    find-empty = λ k. refl;
    find_congr = lookup_congr;
    find_unequal = lookup_unequal;
    find-insert = lookup-put;
    find-assign = lookup-overwrite;
    find-erase = lookup-without;
    find-clear = λ t k. refl;
  }
