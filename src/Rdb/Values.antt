-- ===== src/Rdb/Values.antt =====
-- The value of a dump entry: `SaveObjectTypeOpcode`, `SaveObjectData` of src/core/rdb_serializer.cc
-- against `ReadObject` of src/core/rdb_loader.cc.
use nano_redis.Prelude.{
  ℕ, suc, ◌^◌, ◌<◌, List, [], ◌∷◌, ◌++◌, Bytes, length, map, ◌≡◌, refl, ap, ◌∙◌,
}
use mathlib.Core.Path.{subst}
use nano_redis.Prelude.Int.{ℤ, IsInt64}
use nano_redis.NanoObj.{
  NanoObj, inline_str, int_tag, small_str, robj, null_tag, null_ptr, list_obj, set_obj, hash_obj,
  to_list, of_list, obj_hash, obj_set, obj_list, from_string, from_hash, from_set, from_list,
}
use nano_redis.NanoObj.Ops.{
  get_string_view, is_int, get_type, as_int, get_obj, is_string, to_string,
}
use nano_redis.NanoObj.Ops
use nano_redis.Rdb.{nrdb_string, nrdb_int, nrdb_hash, nrdb_set, nrdb_list, le_bytes, le_value}
use nano_redis.Rdb.Numbers.{le_value-le_bytes, length-le_bytes, from_u64-to_u64, to_u64_small}
use nano_redis.Rdb.Save.{
  save_fields, save_members, save_items, item_text, to_u64, save_len, len_bytes, save_int_object,
  save_hash_object, save_set_object, save_list_object, save_object_data, save_object_type_opcode,
}
use nano_redis.Rdb.Load
use nano_redis.Rdb.Load.{
  Containers, read_fields, read_members, read_items, read_object, read_string, read_len, read_raw,
  from_u64,
}
use nano_redis.Rdb.Pieces.{
  Writes, Reads, then-Writes, bind-Reads, map-Reads, read_raw-Reads, write_raw-Writes,
}
use nano_redis.Rdb.Lengths.{
  string_bytes, save_string-Writes, read_string-Reads, save_len-Writes, read_len-Reads,
}
use nano_redis.Rdb.Objects.{
  Measured, AllMeasured, all_texts, members_bytes, strings, assigned, inserted, save_members-Writes,
  save_items-Writes, save_fields-Writes, read_items-Reads, read_members-Reads, read_fields-Reads,
}

-- The type byte of a value, and its data.
unfoldable pub type_byte : NanoObj → ℕ
type_byte (int_tag z) = nrdb_int
type_byte (robj t e n (list_obj l)) = nrdb_list
type_byte (robj t e n (set_obj l)) = nrdb_set
type_byte (robj t e n (hash_obj l)) = nrdb_hash
type_byte _ = nrdb_string

unfoldable pub value_bytes : NanoObj → Bytes
value_bytes (int_tag z) = le_bytes 8 (to_u64 z)
value_bytes (robj t e n (list_obj l)) =
    len_bytes 10 (length (to_list l)) ++ members_bytes (map item_text (to_list l))
value_bytes (robj t e n (set_obj l)) = len_bytes 10 (length l) ++ members_bytes l
value_bytes (robj t e n (hash_obj l)) = len_bytes 10 (length l) ++ members_bytes (all_texts l)
value_bytes o = string_bytes (get_string_view o)

-- A value that the commands store: a number, a text, or a container of the type its object says.
abbrev pub IsStored : NanoObj → Type 0
IsStored (inline_str s) = Measured s
IsStored (int_tag z) = IsInt64 z
IsStored (small_str n p b) = Measured (get_string_view (small_str n p b))
IsStored (robj t e n (list_obj l)) =
    (t ≡ obj_list) × ((length (to_list l) < 2 ^ 64) × AllMeasured (map item_text (to_list l)))
IsStored (robj t e n (set_obj l)) = (t ≡ obj_set) × ((length l < 2 ^ 64) × AllMeasured l)
IsStored (robj t e n (hash_obj l)) =
    (t ≡ obj_hash) × ((length l < 2 ^ 64) × AllMeasured (all_texts l))
IsStored (robj t e n null_ptr) = ⊥
IsStored null_tag = ⊥

-- What the loader makes of the value. A list's items come back as texts.
unfoldable pub reloaded : Containers → NanoObj → NanoObj
reloaded c (int_tag z) = int_tag z
reloaded c (robj t e n (list_obj l)) =
    Ops.set_obj from_list (list_obj (of_list (strings (map item_text (to_list l)))))
reloaded c (robj t e n (set_obj l)) = Ops.set_obj from_set (set_obj (inserted c [] l))
reloaded c (robj t e n (hash_obj l)) = Ops.set_obj from_hash (hash_obj (assigned c [] l))
reloaded c o = from_string (get_string_view o)

pub type_opcode-Writes :
    (o : NanoObj) → IsStored o → Writes (save_object_type_opcode o) (type_byte o ∷ [])
unfolding save_object_type_opcode type_byte is_int get_type
type_opcode-Writes (inline_str s) h = write_raw-Writes (nrdb_string ∷ [])
type_opcode-Writes (int_tag z) h = write_raw-Writes (nrdb_int ∷ [])
type_opcode-Writes (small_str n p b) h = write_raw-Writes (nrdb_string ∷ [])
type_opcode-Writes (robj t e n (list_obj l)) (h, _) = rw h (write_raw-Writes (nrdb_list ∷ []))
type_opcode-Writes (robj t e n (set_obj l)) (h, _) = rw h (write_raw-Writes (nrdb_set ∷ []))
type_opcode-Writes (robj t e n (hash_obj l)) (h, _) = rw h (write_raw-Writes (nrdb_hash ∷ []))
type_opcode-Writes (robj t e n null_ptr) h = elim h [ ]
type_opcode-Writes null_tag h = elim h [ ]

pub value-Writes : (o : NanoObj) → IsStored o → Writes (save_object_data o) (value_bytes o)
unfolding save_object_data value_bytes is_int get_type save_int_object as_int get_obj
    save_list_object save_set_object save_hash_object
value-Writes (inline_str s) h = save_string-Writes (get_string_view (inline_str s))
value-Writes (int_tag z) h = write_raw-Writes (le_bytes 8 (to_u64 z))
value-Writes (small_str n p b) h = save_string-Writes (get_string_view (small_str n p b))
value-Writes (robj t e n (list_obj l)) (h, _) = rw h (
    then-Writes (save_len (length (to_list l))) (save_items (to_list l))
      (len_bytes 10 (length (to_list l))) (members_bytes (map item_text (to_list l)))
      (save_len-Writes (length (to_list l))) (save_items-Writes (to_list l)))
value-Writes (robj t e n (set_obj l)) (h, _) = rw h (
    then-Writes (save_len (length l)) (save_members l) (len_bytes 10 (length l)) (members_bytes l)
      (save_len-Writes (length l)) (save_members-Writes l))
value-Writes (robj t e n (hash_obj l)) (h, _) = rw h (
    then-Writes (save_len (length l)) (save_fields l) (len_bytes 10 (length l))
      (members_bytes (all_texts l)) (save_len-Writes (length l)) (save_fields-Writes l))
value-Writes (robj t e n null_ptr) h = elim h [ ]
value-Writes null_tag h = elim h [ ]

length-map : (f : NanoObj → Bytes) (l : List NanoObj) → length (map f l) ≡ length l
length-map f [] = refl
length-map f (o ∷ l) = ap suc (length-map f l)

module _ (c : Containers) where
  text-Reads :
      (s : Bytes) → Measured s → Reads (read_object c nrdb_string) (string_bytes s) (from_string s)
  unfolding read_object
  text-Reads s h = map-Reads read_string from_string (string_bytes s) s (read_string-Reads s h)

  int-Reads :
      (z : ℤ) → IsInt64 z → Reads (read_object c nrdb_int) (le_bytes 8 (to_u64 z)) (int_tag z)
  unfolding read_object
  int-Reads z h =
      subst (λ (y : ℤ). Reads (read_object c nrdb_int) w (int_tag y)) same
        (map-Reads (read_raw 8) (λ buf. int_tag (from_u64 (le_value buf))) w w
          (subst (λ (n : ℕ). Reads (read_raw n) w w) (length-le_bytes 8 (to_u64 z))
            (read_raw-Reads w)))
    where
      w : Bytes
      w = le_bytes 8 (to_u64 z)

      same : from_u64 (le_value w) ≡ z
      same =
          ap (λ (n : ℕ). from_u64 n) (le_value-le_bytes 8 (to_u64 z) (to_u64_small z h))
          ∙ from_u64-to_u64 z h

  counted-Reads :
      {A : Type 0} (read : ℕ → Load.Load A) (make : A → NanoObj) (n : ℕ) (w : Bytes) (a : A)
      → n < 2 ^ 64
      → Reads (read n) w a
      → Reads
          (Load.◌>>=◌ read_len (λ count. Load.◌>>=◌ (read count) (λ x. Load.pure (make x))))
          (len_bytes 10 n ++ w)
          (make a)
  counted-Reads read make n w a h r =
      bind-Reads read_len (λ count. Load.◌>>=◌ (read count) (λ x. Load.pure (make x)))
        (len_bytes 10 n) w n (make a) (read_len-Reads n h) (map-Reads (read n) make w a r)

  pub value-Reads :
      (o : NanoObj)
      → IsStored o
      → Reads (read_object c (type_byte o)) (value_bytes o) (reloaded c o)
  unfolding type_byte value_bytes reloaded read_object get_string_view
  value-Reads (inline_str s) h = text-Reads (get_string_view (inline_str s)) h
  value-Reads (int_tag z) h = int-Reads z h
  value-Reads (small_str n p b) h = text-Reads (get_string_view (small_str n p b)) h
  value-Reads (robj t e n (list_obj l)) (_, (h, hs)) =
      counted-Reads (λ count. read_items count [])
        (λ list. Ops.set_obj from_list (list_obj (of_list list))) (length (to_list l))
        (members_bytes (map item_text (to_list l))) (strings (map item_text (to_list l))) h
        (subst
          (λ (k : ℕ).
            Reads (read_items k []) (members_bytes (map item_text (to_list l)))
              (strings (map item_text (to_list l))))
          (length-map item_text (to_list l)) (read_items-Reads (map item_text (to_list l)) [] hs))
  value-Reads (robj t e n (set_obj l)) (_, (h, hs)) =
      counted-Reads (λ count. read_members c count [])
        (λ members. Ops.set_obj from_set (set_obj members)) (length l) (members_bytes l)
        (inserted c [] l) h (read_members-Reads c l [] hs)
  value-Reads (robj t e n (hash_obj l)) (_, (h, hs)) =
      counted-Reads (λ count. read_fields c count [])
        (λ table. Ops.set_obj from_hash (hash_obj table)) (length l) (members_bytes (all_texts l))
        (assigned c [] l) h (read_fields-Reads c l [] hs)
  value-Reads (robj t e n null_ptr) h = elim h [ ]
  value-Reads null_tag h = elim h [ ]
