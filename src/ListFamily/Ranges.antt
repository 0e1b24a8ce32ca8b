-- ===== src/ListFamily/Ranges.antt =====
-- Places and ranges in a list: LINDEX, LSET, LRANGE, LTRIM and LREM of src/command/list_family.cc.
use nano_redis.Prelude.{
  ℕ, zero, suc, ◌+◌, ◌-◌, ◌≤◌, ◌<◌, some, List, [], ◌∷◌, Bytes, length, take, drop, ltb,
  if◌then◌else◌, Bool-cases, inl, inr, ◌≡◌, refl, ap, ◌∙◌, arith,
}
use nano_redis.Prelude.Int.{ℤ, pos, negsuc, leb_ℤ}
use nano_redis.NanoObj.{NanoObj}
use nano_redis.ListFamily.Deque.{
  position, range_of, start_of, stop_of, last_index, bounded, slice, shows, remove_all,
}

pub position-bound : (index : ℤ) (size n : ℕ) → position index size ≡ some n → n < size
unfolding position
position-bound index size n h = ground arith

bounded_inv : (x y : ℤ) (a b : ℕ) → bounded x y ≡ some (a, b) → (x ≡ pos a) × (y ≡ pos b) × (a ≤ b)
bounded_inv (pos n) (pos m) a b h = elim (Bool-cases (ltb m n)) [
  | inl p ↦ absurd (ground arith)
  | inr p ↦ (ground arith, ground arith, ground arith)
]
bounded_inv (negsuc n) y a b h = absurd (ground arith)
bounded_inv (pos n) (negsuc m) a b h = absurd (ground arith)

last_index-bound : (stop : ℤ) (len b : ℕ) → last_index stop len ≡ pos b → b < len
last_index-bound (pos n) len b h = ground arith
last_index-bound (negsuc n) len b h = absurd (ground arith)

pub range_of-bound :
    (start stop : ℤ) (len a b : ℕ) → range_of start stop len ≡ some (a, b) → (a ≤ b) × (b < len)
unfolding range_of
range_of-bound start stop len a b h = elim (Bool-cases (leb_ℤ (pos len) (start_of start len))) [
  | inl p ↦ absurd (ground arith)
  | inr p ↦
      let (e, f, le) =
        bounded_inv (start_of start len) (last_index (stop_of stop len) len) a b (ground arith) in
      (le, last_index-bound (stop_of stop len) len b f)
]

length-slice_from :
    (a : ℕ) (n : ℕ) (list : List NanoObj) → a + n ≤ length list → length (take n (drop a list)) ≡ n
length-slice_from zero zero list h = refl
length-slice_from zero (suc n) [] h = absurd (omega arith)
length-slice_from zero (suc n) (o ∷ list) h = ap suc (length-slice_from zero n list (omega arith))
length-slice_from (suc a) n [] h = absurd (omega arith)
length-slice_from (suc a) n (o ∷ list) h = length-slice_from a n list (omega arith)

pub length-slice :
    (start stop : ℤ) (a b : ℕ) (list : List NanoObj)
    → range_of start stop (length list) ≡ some (a, b)
    → length (slice a b list) ≡ b + 1 - a
length-slice start stop a b list h =
    let (p, q) = range_of-bound start stop (length list) a b h in
    length-slice_from a (b + 1 - a) list (omega arith)

-- How often the value is shown in the list, and the list without it.
abbrev pub occurrences : Bytes → List NanoObj → ℕ
occurrences value [] = 0
occurrences value (o ∷ list) = let n = occurrences value list in if shows o value then suc n else n

abbrev pub without : Bytes → List NanoObj → List NanoObj
without value [] = []
without value (o ∷ list) = let rest = without value list in if shows o value then rest else o ∷ rest

-- LREM with the count 0 leaves the list without the value, and counts how often the value is shown in
-- it.
pub remove_all_lem :
    (value : Bytes) (list : List NanoObj)
    → remove_all value list ≡ (without value list, occurrences value list)
unfolding remove_all
remove_all_lem value [] = refl
remove_all_lem value (o ∷ list) = elim (Bool-cases (shows o value)) [
  | inl s ↦ rw s (
      ap (λ r. (r.0, r.1 + 1)) (remove_all_lem value list)
      ∙ ap (λ (n : ℕ). (without value list, n)) (omega arith))
  | inr s ↦ rw s (ap (λ r. (o ∷ r.0, r.1)) (remove_all_lem value list))
]
