-- ===== src/Rdb/Save.antt =====
-- The writer of the dump, src/core/rdb_serializer.cc: a function for each method, over a sink in the state.
use nano_redis.Prelude.{
  ℕ, zero, suc, ◌+◌, ◌-◌, ◌/◌, ◌%◌, ◌^◌, Bool, not, Option, none, some, List, [], ◌∷◌, ◌++◌, Bytes,
  length, ltb, ◌==◌, if◌then◌else◌,
}
use nano_redis.Prelude.Int.{ℤ, pos, negsuc, ltb_ℤ}
use nano_redis.NanoObj.{
  NanoObj, list_obj, set_obj, hash_obj, to_list, obj_string, obj_hash, obj_set, obj_list, obj_zset,
}
use nano_redis.NanoObj.Ops.{
  is_int, is_string, as_int, get_type, get_obj, get_string_view, to_string,
}
use nano_redis.Rdb.{
  nrdb_magic, opcode_db_select, opcode_expire_ms, opcode_eof, nrdb_string, nrdb_int, nrdb_hash,
  nrdb_set, nrdb_list, nrdb_zset, build_crc32, le_bytes, Error, bad_file_descriptor, io_error,
  invalid_argument, not_supported,
}

-- The serializer, with its sink: whether there is one, what it has taken and how many bytes more it
-- takes before `Append` fails.
pub record Saver : Type 0 where
  pub has_sink : Bool
  pub out : Bytes
  pub room : ℕ
  pub shard_id : ℕ
  pub num_shards : ℕ
  pub last_dbid : ℕ
  pub checksum : ℕ

-- The constructor.
abbrev pub new_serializer : Bool → ℕ → ℕ → ℕ → Saver
new_serializer has_sink room shard_id num_shards = record {
  has_sink = has_sink;
  out = [];
  room = room;
  shard_id = shard_id;
  num_shards = num_shards;
  last_dbid = 2 ^ 32 - 1;
  checksum = 0;
}

-- A function that returns an error code, `none` for success.
abbrev pub Save : Type 0
Save = Saver → Option Error × Saver

abbrev pub continue : Option Error → Save → Saver → Option Error × Saver
continue none k s = k s
continue (some e) k s = (some e, s)

-- `ec = m; if (ec) return ec; k`
infixr 5 ◌>>◌
abbrev pub ◌>>◌ : Save → Save → Save
◌>>◌ m k s = continue (m s).0 k (m s).1

abbrev pub success : Save
success s = (none, s)

abbrev pub failed : Error → Save
failed e s = (some e, s)

unfoldable pub write_raw : Bytes → Save
write_raw buf s =
    if not s.has_sink
    then (some bad_file_descriptor, s)
    else if length buf == 0
    then (none, s)
    else if ltb s.room (length buf)
    then (some io_error, s)
    else (
      none,
      record s {
        out = s.out ++ buf;
        room = s.room - length buf;
        checksum = build_crc32 s.checksum buf;
      },
    )

abbrev pub write_opcode : ℕ → Save
write_opcode opcode = write_raw (opcode ∷ [])

-- The loop of `SaveLen`; ten rounds write any 64-bit number.
unfoldable pub len_bytes : ℕ → ℕ → Bytes
len_bytes zero len = []
len_bytes (suc rounds) len =
    let b = len % 128 in
    let more = len_bytes rounds (len / 128) in if len / 128 == 0 then b ∷ [] else (b + 128) ∷ more

unfoldable pub save_len : ℕ → Save
unfolding len_bytes
save_len len = write_raw (len_bytes 10 len)

unfoldable pub save_string : Bytes → Save
unfolding save_len
save_string val = do save_len (length val); write_raw val

-- The bit pattern of an `int64_t`.
abbrev pub to_u64 : ℤ → ℕ
to_u64 (pos n) = n % 2 ^ 64
to_u64 (negsuc n) = (2 ^ 64 - 1 - n) % 2 ^ 64

unfoldable pub save_int_object : NanoObj → Save
unfolding as_int
save_int_object obj = write_raw (le_bytes 8 (to_u64 (as_int obj)))

unfoldable pub save_fields : List (Bytes × Bytes) → Save
unfolding save_string
save_fields [] = success
save_fields ((field, value) ∷ l) = do save_string field; save_string value; save_fields l

unfoldable pub save_hash_object : NanoObj → Save
unfolding save_fields get_obj
save_hash_object obj = elim (get_obj obj) [
  | hash_obj l ↦ (do save_len (length l); save_fields l)
  | _ ↦ failed invalid_argument
]

unfoldable pub save_members : List Bytes → Save
unfolding save_string
save_members [] = success
save_members (member ∷ l) = do save_string member; save_members l

unfoldable pub save_set_object : NanoObj → Save
unfolding save_members get_obj
save_set_object obj = elim (get_obj obj) [
  | set_obj l ↦ (do save_len (length l); save_members l)
  | _ ↦ failed invalid_argument
]

abbrev pub item_text : NanoObj → Bytes
item_text item = if is_string item then get_string_view item else to_string item

unfoldable pub save_items : List NanoObj → Save
unfolding save_string
save_items [] = success
save_items (item ∷ l) = do save_string (item_text item); save_items l

unfoldable pub save_list_object : NanoObj → Save
unfolding save_items get_obj
save_list_object obj = elim (get_obj obj) [
  | list_obj l ↦ (do save_len (length (to_list l)); save_items (to_list l))
  | _ ↦ failed invalid_argument
]

abbrev type_opcode : ℕ → Save
type_opcode type =
    if type == obj_string
    then write_opcode nrdb_string
    else if type == obj_hash
    then write_opcode nrdb_hash
    else if type == obj_set
    then write_opcode nrdb_set
    else if type == obj_list
    then write_opcode nrdb_list
    else if type == obj_zset
    then write_opcode nrdb_zset
    else failed invalid_argument

unfoldable pub save_object_type_opcode : NanoObj → Save
unfolding is_int get_type
save_object_type_opcode obj =
    if is_int obj then write_opcode nrdb_int else type_opcode (get_type obj)

-- A sorted set is not supported.
unfoldable pub save_object_data : NanoObj → Save
unfolding is_int get_type save_int_object save_string save_hash_object save_set_object
    save_list_object get_string_view
save_object_data obj =
    if is_int obj
    then save_int_object obj
    else (let type = get_type obj in
        if type == obj_string
        then save_string (get_string_view obj)
        else if type == obj_hash
        then save_hash_object obj
        else if type == obj_set
        then save_set_object obj
        else if type == obj_list
        then save_list_object obj
        else if type == obj_zset
        then failed not_supported
        else failed invalid_argument)

-- `SaveHeader` at the time `ts`.
unfoldable pub save_header : ℕ → Save
save_header ts s =
    (do
      write_raw nrdb_magic
      write_raw (le_bytes 4 s.shard_id)
      write_raw (le_bytes 4 s.num_shards)
      write_raw (le_bytes 8 ts)
      write_raw (le_bytes 2 16))
      (record s { checksum = 0 })

unfoldable pub save_select_db : ℕ → Save
unfolding save_len
save_select_db dbid s =
    if dbid == s.last_dbid
    then (none, s)
    else (do
      write_opcode opcode_db_select
      save_len dbid
      λ s'. (none, record s' { last_dbid = dbid }))
        s

unfoldable pub save_deadline : ℤ → Save
unfolding save_len
save_deadline expire_ms =
    if ltb_ℤ (pos 0) expire_ms
    then (do write_opcode opcode_expire_ms; save_len (to_u64 expire_ms))
    else success

unfoldable pub save_entry : NanoObj → NanoObj → ℤ → ℕ → Save
unfolding save_select_db save_deadline save_object_type_opcode save_object_data save_string
    get_string_view
save_entry key value expire_ms dbid = do
  save_select_db dbid
  save_deadline expire_ms
  save_object_type_opcode value
  save_string (get_string_view key)
  save_object_data value

-- The checksum is taken behind the EOF byte, and written through `WriteRaw` too.
unfoldable pub save_footer : Save
save_footer = do write_opcode opcode_eof; λ s. write_raw (le_bytes 4 s.checksum) s
