-- ===== src/Tests/Hashes.antt =====
-- A hash map that puts new fields in front, and a database with the hash a: 1, b: 2 under the key 7.
use nano_redis.Prelude.{
  ℕ, ◌≡◌, refl, ap, arith, none, some, [], ◌∷◌, ◌++◌, Bytes, bytes_eq, bytes_eq→eq, codes,
  Bool-cases, inl, inr, ◌==◌, if◌then◌else◌,
}
use nano_redis.Prelude.Int.{pos, ◌+ℤ◌}
use nano_redis.Util
use nano_redis.NanoObj
use nano_redis.NanoObj.{NanoObj, inline_str, int_tag, robj, obj_hash}
use nano_redis.NanoObj.Ops
use nano_redis.NanoObj.Ops.{obj_eq, is_hash, get_obj}
use nano_redis.Resp.{make_array, ok_response}
use nano_redis.Database.{Database}
use nano_redis.Database.Assoc.{assoc_table}
use nano_redis.Database.View.{entry}
use nano_redis.ListFamily.{parse_long_long}
use nano_redis.ListFamily.Handlers.{Clock}
use nano_redis.ListFamily.Changes.{Changed}
use nano_redis.StringFamily.{wrap64}
use nano_redis.SetFamily.{bulk_members}
use nano_redis.SetFamily.Interface.{contains}
use nano_redis.HashFamily.{Hash, Hashes, lookup, with_hash, assign_all, draw_fields}
use nano_redis.HashFamily.Handlers.{h_set, h_rand_field}
use nano_redis.HashFamily.Fields.{last_value}
use nano_redis.HashFamily.Changing.{HoldsHash, h_set-Changed, h_rand_field-Changed}

abbrev erase_field : Hash → Bytes → Hash
erase_field [] f = []
erase_field (e ∷ h) f = if bytes_eq f e.0 then erase_field h f else e ∷ erase_field h f

abbrev assign_front : Hash → Bytes → Bytes → Hash
assign_front h f v = (f, v) ∷ erase_field h f

lookup-erase_field :
    (h : Hash) (f g : Bytes)
    → lookup (erase_field h f) g ≡ (if bytes_eq f g then none else lookup h g)
lookup-erase_field [] f g = ground arith
lookup-erase_field (e ∷ h) f g =
    let rest = lookup-erase_field h f g in
    elim (Bool-cases (bytes_eq f e.0)) [
      | inl x ↦ rw x (ground (arith, rest, ap (λ (s : Bytes). bytes_eq s g) (bytes_eq→eq f e.0 x)))
      | inr x ↦ rw x (elim (Bool-cases (bytes_eq e.0 g)) [
        | inl y ↦ ground (arith, rest, x, y, ap (bytes_eq f) (bytes_eq→eq e.0 g y))
        | inr y ↦ ground (arith, rest, y)
      ])
    ]

lookup-assign_front :
    (h : Hash) (f v g : Bytes)
    → lookup (assign_front h f v) g ≡ (if bytes_eq f g then some v else lookup h g)
lookup-assign_front h f v g = ground (arith, lookup-erase_field h f g)

abbrev front_hashes : Hashes
front_hashes = record {
  assign = assign_front;
  erase = erase_field;
  lookup-assign = lookup-assign_front;
  lookup-erase = lookup-erase_field;
}

abbrev fields : Hash
fields = (codes "a", codes "1") ∷ (codes "b", codes "2") ∷ []

abbrev key : NanoObj
key = int_tag (pos 7)

abbrev word : NanoObj
word = inline_str (codes "H")

abbrev field : NanoObj
field = inline_str (codes "b")

abbrev obj : NanoObj
obj = robj obj_hash 2 0 (NanoObj.hash_obj fields)

abbrev keyspace : Database assoc_table assoc_table
keyspace = record {
  tables = λ i. if i == 0 then (key, obj) ∷ [] else [];
  expire_tables = λ i. if i == 0 then (key, pos 5000) ∷ [] else [];
  current_db = 0;
}

abbrev clock : Clock
clock i = pos 1000

abbrev zero_rand : ℕ → ℕ
zero_rand i = 0

keyspace-HoldsHash : HoldsHash (pos 1000) key obj (some (pos 5000)) fields keyspace
unfolding entry obj_eq is_hash get_obj
keyspace-HoldsHash = record { seen = refl; is_a_hash = refl; hash = refl }

h_set-Changed_example :
    let new = assign_all front_hashes (field ∷ word ∷ []) fields in
    Changed
      (pos 1000)
      key
      (some (with_hash obj new, some (pos 5000)))
      ok_response
      keyspace
      (h_set front_hashes (word ∷ key ∷ field ∷ word ∷ []) clock keyspace)
    × ((g : Bytes) → lookup new g ≡ last_value (field ∷ word ∷ []) g (lookup fields g))
h_set-Changed_example =
    h_set-Changed front_hashes word key field word obj [] fields (some (pos 5000)) clock keyspace
      refl keyspace-HoldsHash

abbrev sum : Bytes
sum = Util.to_string (wrap64 (pos 2 +ℤ pos 40))

h_rand_field-Changed_example :
    let (shown, left) = draw_fields front_hashes 1 zero_rand fields in
    Changed
      (pos 1000)
      key
      (some (with_hash obj left, some (pos 5000)))
      (make_array (pos 1) ++ bulk_members shown)
      keyspace
      (h_rand_field front_hashes zero_rand (word ∷ key ∷ int_tag (pos 1) ∷ []) clock keyspace)
    × ((g : Bytes) → lookup left g ≡ (if contains shown g then none else lookup fields g))
unfolding parse_long_long Ops.to_string Util.to_string
h_rand_field-Changed_example =
    h_rand_field-Changed front_hashes zero_rand word key (int_tag (pos 1)) obj 1
      (codes "a", codes "1") ((codes "b", codes "2") ∷ []) (some (pos 5000)) clock keyspace refl
      keyspace-HoldsHash
