-- ===== src/Rdb/Objects.antt =====
-- `SaveObjectTypeOpcode`, `SaveObjectData` of src/core/rdb_serializer.cc against `ReadObject` of
-- src/core/rdb_loader.cc.
use nano_redis.Prelude.{
  ◌^◌, ◌<◌, List, [], ◌∷◌, ◌++◌, Bytes, length, map, append_assoc, append-nil, sym,
}
use mathlib.Core.Path.{subst}
use nano_redis.NanoObj.{NanoObj, from_string}
use nano_redis.Rdb.Save
use nano_redis.Rdb.Save.{
  save_fields, save_members, save_items, item_text, to_u64, save_string, save_len, len_bytes,
  save_object_data, save_object_type_opcode,
}
use nano_redis.Rdb.Load
use nano_redis.Rdb.Load.{
  Containers, read_fields, read_members, read_items, read_object, read_string, read_len, read_raw,
  from_u64,
}
use nano_redis.Rdb.Pieces.{Writes, Reads, success-Writes, then-Writes, pure-Reads, bind-Reads}
use nano_redis.Rdb.Lengths.{string_bytes, save_string-Writes, read_string-Reads}

-- Strings that a length of 64 bits measures; all are, in the memory of a machine.
abbrev pub Measured : Bytes → Type 0
Measured s = length s < 2 ^ 64

abbrev pub all_texts : List (Bytes × Bytes) → List Bytes
all_texts [] = []
all_texts ((field, value) ∷ l) = field ∷ value ∷ all_texts l

abbrev pub AllMeasured : List Bytes → Type 0
AllMeasured [] = Unit
AllMeasured (s ∷ l) = Measured s × AllMeasured l

abbrev pub members_bytes : List Bytes → Bytes
members_bytes [] = []
members_bytes (s ∷ l) = string_bytes s ++ members_bytes l

pub save_members-Writes : (l : List Bytes) → Writes (save_members l) (members_bytes l)
unfolding save_members
save_members-Writes [] = success-Writes
save_members-Writes (s ∷ l) =
    then-Writes (save_string s) (save_members l) (string_bytes s) (members_bytes l)
      (save_string-Writes s) (save_members-Writes l)

pub save_items-Writes : (l : List NanoObj) → Writes (save_items l) (members_bytes (map item_text l))
unfolding save_items
save_items-Writes [] = success-Writes
save_items-Writes (o ∷ l) =
    then-Writes (save_string (item_text o)) (save_items l) (string_bytes (item_text o))
      (members_bytes (map item_text l)) (save_string-Writes (item_text o)) (save_items-Writes l)

pub save_fields-Writes :
    (l : List (Bytes × Bytes)) → Writes (save_fields l) (members_bytes (all_texts l))
unfolding save_fields
save_fields-Writes [] = success-Writes
save_fields-Writes ((f, v) ∷ l) =
    then-Writes (save_string f) (Save.◌>>◌ (save_string v) (save_fields l)) (string_bytes f)
      (string_bytes v ++ members_bytes (all_texts l)) (save_string-Writes f)
      (then-Writes (save_string v) (save_fields l) (string_bytes v) (members_bytes (all_texts l))
        (save_string-Writes v) (save_fields-Writes l))

abbrev pub strings : List Bytes → List NanoObj
strings = map from_string

pub read_items-Reads :
    (l : List Bytes) (acc : List NanoObj)
    → AllMeasured l
    → Reads (read_items (length l) acc) (members_bytes l) (acc ++ strings l)
unfolding read_items
read_items-Reads [] acc h =
    subst (λ (t : List NanoObj). Reads (Load.pure acc) [] t) (sym (append-nil acc)) (pure-Reads acc)
read_items-Reads (s ∷ l) acc (h, hs) =
    bind-Reads read_string (λ member. read_items (length l) (acc ++ from_string member ∷ []))
      (string_bytes s) (members_bytes l) s (acc ++ strings (s ∷ l)) (read_string-Reads s h)
      (subst (λ t. Reads (read_items (length l) (acc ++ from_string s ∷ [])) (members_bytes l) t)
        (append_assoc acc (from_string s ∷ []) (strings l))
        (read_items-Reads l (acc ++ from_string s ∷ []) hs))

module _ (c : Containers) where
  abbrev pub assigned : List (Bytes × Bytes) → List (Bytes × Bytes) → List (Bytes × Bytes)
  assigned acc [] = acc
  assigned acc ((f, v) ∷ l) = assigned (c.assign acc f v) l

  abbrev pub inserted : List Bytes → List Bytes → List Bytes
  inserted acc [] = acc
  inserted acc (s ∷ l) = inserted (c.insert acc s) l

  pub read_members-Reads :
      (l : List Bytes) (acc : List Bytes)
      → AllMeasured l
      → Reads (read_members c (length l) acc) (members_bytes l) (inserted acc l)
  unfolding read_members
  read_members-Reads [] acc h = pure-Reads acc
  read_members-Reads (s ∷ l) acc (h, hs) =
      bind-Reads read_string (λ member. read_members c (length l) (c.insert acc member))
        (string_bytes s) (members_bytes l) s (inserted (c.insert acc s) l) (read_string-Reads s h)
        (read_members-Reads l (c.insert acc s) hs)

  pub read_fields-Reads :
      (l : List (Bytes × Bytes)) (acc : List (Bytes × Bytes))
      → AllMeasured (all_texts l)
      → Reads (read_fields c (length l) acc) (members_bytes (all_texts l)) (assigned acc l)
  unfolding read_fields
  read_fields-Reads [] acc h = pure-Reads acc
  read_fields-Reads ((f, v) ∷ l) acc (hf, (hv, hs)) =
      bind-Reads read_string _ (string_bytes f) (string_bytes v ++ members_bytes (all_texts l)) f
        (assigned (c.assign acc f v) l) (read_string-Reads f hf)
        (bind-Reads read_string (λ value. read_fields c (length l) (c.assign acc f value))
          (string_bytes v) (members_bytes (all_texts l)) v (assigned (c.assign acc f v) l)
          (read_string-Reads v hv) (read_fields-Reads l (c.assign acc f v) hs))
