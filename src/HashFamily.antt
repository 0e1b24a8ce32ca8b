-- ===== src/HashFamily.antt =====
-- src/command/hash_family.cc: the commands on hashes. A hash is the list of its fields and values in the
-- order of iteration; the hash map (`ankerl::unordered_dense::map`, a vendored library) is an interface.
pub mod Handlers
pub mod Fields
pub mod Changing
use nano_redis.Prelude.{
  ℕ, zero, suc, ◌+◌, ◌%◌, ◌≡◌, Bool, true, false, Option, none, some, List, [], ◌∷◌, ◌++◌, Bytes,
  bytes_eq, length, ◌==◌, if◌then◌else◌,
}
use nano_redis.Prelude.Int.{ℤ}
use nano_redis.NanoObj.{NanoObj, Inner, hash_obj, from_hash}
use nano_redis.NanoObj.Ops
use nano_redis.NanoObj.Ops.{get_obj, to_string}
use nano_redis.ListFamily.{skip_spaces}
use nano_redis.StringFamily.{unsigned_chars}

abbrev pub Hash : Type 0
Hash = List (Bytes × Bytes)

-- `find`, as the value that the iterator has
abbrev pub lookup : Hash → Bytes → Option Bytes
lookup [] f = none
lookup (e ∷ h) f = if bytes_eq e.0 f then some e.1 else lookup h f

pub record Hashes : Type 0 where
  -- `(*hash_table)[field] = value`
  pub assign : Hash → Bytes → Bytes → Hash
  pub erase : Hash → Bytes → Hash
  pub lookup-assign :
      (h : Hash) (f v g : Bytes)
      → lookup (assign h f v) g ≡ (if bytes_eq f g then some v else lookup h g)
  pub lookup-erase :
      (h : Hash) (f g : Bytes) → lookup (erase h f) g ≡ (if bytes_eq f g then none else lookup h g)

-- The hash of a hash object.
abbrev hash_in : Inner → Option Hash
hash_in (hash_obj h) = some h
hash_in _ = none

abbrev pub hash_of : NanoObj → Option Hash
hash_of obj = hash_in (get_obj obj)

abbrev pub with_hash : NanoObj → Hash → NanoObj
with_hash obj h = Ops.set_obj obj (hash_obj h)

-- A new hash object with an empty hash.
abbrev pub new_hash : NanoObj
new_hash = with_hash from_hash []

-- `std::stoll` in base 10: `none` where it throws. What follows the digits is ignored.
abbrev pub value_only : Option (ℤ × Bytes) → Option ℤ
value_only none = none
value_only (some (z, left)) = some z

abbrev pub signed_value : Bytes → Option (ℤ × Bytes)
signed_value [] = none
signed_value (c ∷ s) =
    if c == b'-'
    then unsigned_chars true s
    else if c == b'+'
    then unsigned_chars false s
    else unsigned_chars false (c ∷ s)

unfoldable pub stoll : Bytes → Option ℤ
unfolding skip_spaces
stoll s = value_only (signed_value (skip_spaces s))

abbrev pub field_at : Hash → ℕ → Bytes
field_at [] i = []
field_at (e ∷ h) zero = e.0
field_at (e ∷ h) (suc i) = field_at h i

module _ (c : Hashes) where
  -- for (i = 2; i < args.size(); i += 2)
  unfoldable pub assign_all : List NanoObj → Hash → Hash
  assign_all (field ∷ value ∷ args) h =
      assign_all args (c.assign h (to_string field) (to_string value))
  assign_all _ h = h

  -- The loop of HDEL, with what `deleted` is at the end.
  unfoldable pub erase_fields : List NanoObj → Hash → Hash × ℕ
  erase_fields [] h = (h, 0)
  erase_fields (arg ∷ args) h =
      let f = to_string arg in
      let (h', deleted) = erase_fields args (c.erase h f) in
      (h', elim (lookup h f) [ none ↦ deleted | some v ↦ deleted + 1 ])

  -- The loop of HRANDFIELD: the fields shown, and the hash that is left; `rand` has the values of
  -- `std::rand` from now on.
  unfoldable pub draw_fields : ℕ → (ℕ → ℕ) → Hash → List Bytes × Hash
  draw_fields zero rand h = ([], h)
  draw_fields (suc count) rand [] = ([], [])
  draw_fields (suc count) rand (e ∷ h) =
      let f = field_at (e ∷ h) (rand 0 % length (e ∷ h)) in
      let (fields, left) = draw_fields count (λ i. rand (i + 1)) (c.erase (e ∷ h) f) in
      (f ∷ fields, left)
