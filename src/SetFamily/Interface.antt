-- ===== src/SetFamily/Interface.antt =====
-- The hash set of strings of include/command/set_family.h (`ankerl::unordered_dense::set`, a vendored
-- library): its contents in the order of iteration, its `insert` and `erase`, and their laws.
use nano_redis.Prelude.{
  ◌+◌, Bool, true, false, not, ◌&&◌, ◌||◌, List, [], ◌∷◌, Bytes, bytes_eq, length, if◌then◌else◌,
  ◌≡◌,
}

-- `count`, which is 0 or 1, and `find`
abbrev pub contains : List Bytes → Bytes → Bool
contains [] m = false
contains (x ∷ s) m = bytes_eq x m || contains s m

-- No member is there twice.
abbrev pub is_distinct : List Bytes → Bool
is_distinct [] = true
is_distinct (x ∷ s) = not (contains s x) && is_distinct s

pub record Sets : Type 0 where
  pub insert : List Bytes → Bytes → List Bytes
  pub erase : List Bytes → Bytes → List Bytes
  pub contains-insert :
      (s : List Bytes) (m x : Bytes) → contains (insert s m) x ≡ (bytes_eq m x || contains s x)
  pub contains-erase :
      (s : List Bytes) (m x : Bytes) → contains (erase s m) x ≡ (not (bytes_eq m x) && contains s x)
  pub length-insert :
      (s : List Bytes) (m : Bytes)
      → length (insert s m) ≡ (if contains s m then length s else length s + 1)
  pub length-erase :
      (s : List Bytes) (m : Bytes)
      → is_distinct s ≡ true
      → length s ≡ (if contains s m then length (erase s m) + 1 else length (erase s m))
  pub erase-distinct :
      (s : List Bytes) (m : Bytes) → is_distinct s ≡ true → is_distinct (erase s m) ≡ true
