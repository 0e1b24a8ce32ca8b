-- ===== src/HashFamily/Fields.antt =====
-- What the loops of src/command/hash_family.cc make of the fields of a hash.
use nano_redis.Prelude.{
  ℕ, zero, suc, ◌+◌, ◌%◌, ◌≡◌, refl, ◌∙◌, arith, Option, none, some, List, [], ◌∷◌, Bytes, bytes_eq,
  length, if◌then◌else◌,
}
use nano_redis.NanoObj.{NanoObj}
use nano_redis.NanoObj.Ops.{to_string}
use nano_redis.SetFamily.Interface.{contains}
use nano_redis.SetFamily.Members.{named}
use nano_redis.HashFamily.{Hash, Hashes, lookup, field_at, assign_all, erase_fields, draw_fields}

-- The value that the pairs give to a field: the last one, or else `o`.
abbrev pub last_value : List NanoObj → Bytes → Option Bytes → Option Bytes
last_value (field ∷ value ∷ args) g o =
    last_value args g (if bytes_eq (to_string field) g then some (to_string value) else o)
last_value _ g o = o

module _ (c : Hashes) where
  pub lookup-assign_all :
      (args : List NanoObj) (h : Hash) (g : Bytes)
      → lookup (assign_all c args h) g ≡ last_value args g (lookup h g)
  unfolding assign_all
  lookup-assign_all [] h g = refl
  lookup-assign_all (field ∷ []) h g = refl
  lookup-assign_all (field ∷ value ∷ args) h g =
      lookup-assign_all args (c.assign h (to_string field) (to_string value)) g
      ∙ (λ k. last_value args g (c.lookup-assign h (to_string field) (to_string value) g k))

  pub lookup-erase_fields :
      (args : List NanoObj) (h : Hash) (g : Bytes)
      → lookup (erase_fields c args h).0 g ≡ (if named args g then none else lookup h g)
  unfolding erase_fields
  lookup-erase_fields [] h g = refl
  lookup-erase_fields (arg ∷ args) h g =
      lookup-erase_fields args (c.erase h (to_string arg)) g
      ∙ ground (arith, c.lookup-erase h (to_string arg) g)

  pub lookup-draw_fields :
      (count : ℕ) (rand : ℕ → ℕ) (h : Hash) (g : Bytes)
      → lookup (draw_fields c count rand h).1 g
        ≡ (if contains (draw_fields c count rand h).0 g then none else lookup h g)
  unfolding draw_fields
  lookup-draw_fields zero rand h g = refl
  lookup-draw_fields (suc count) rand [] g = refl
  lookup-draw_fields (suc count) rand (e ∷ h) g =
      let f = field_at (e ∷ h) (rand 0 % length (e ∷ h)) in
      lookup-draw_fields count (λ i. rand (i + 1)) (c.erase (e ∷ h) f) g
      ∙ ground (arith, c.lookup-erase (e ∷ h) f g)
