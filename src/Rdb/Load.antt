-- ===== src/Rdb/Load.antt =====
-- The reader of the dump, src/core/rdb_loader.cc: a function for each method. The hash and set
-- containers are a parameter, and the handler is always given.
use Prim.Native.Nat.{bit_or}
use nano_redis.Prelude.{
  ℕ, zero, suc, ◌-◌, ◌*◌, ◌/◌, ◌%◌, ◌^◌, Bool, not, Option, none, some, List, [], ◌∷◌, ◌++◌, Bytes,
  length, take, drop, bytes_eq, ltb, leb, ◌==◌, if◌then◌else◌,
}
use nano_redis.Prelude.Int.{ℤ, pos, negsuc}
use nano_redis.NanoObj.{
  NanoObj, list_obj, set_obj, hash_obj, of_list, from_string, from_int, from_hash, from_set,
  from_list,
}
use nano_redis.NanoObj.Ops
use nano_redis.Rdb.{
  nrdb_magic, opcode_db_select, opcode_db_size, opcode_expire_ms, opcode_eof, nrdb_string, nrdb_int,
  nrdb_hash, nrdb_set, nrdb_list, nrdb_zset, build_crc32, le_value, Error, bad_file_descriptor,
  io_error, invalid_argument, not_supported, undefined,
}

-- The loader, with what its source has still to give; `Read` gives all bytes that are asked for or
-- fails. `has_source` is false for a null source.
pub record Loader : Type 0 where
  pub has_source : Bool
  pub input : Bytes
  pub expected_shard_id : ℕ
  pub checksum : ℕ

pub data Result (A : Type 0) : Type 0 where
  ok : A → Result A
  err : Error → Result A

abbrev pub Load : Type 0 → Type 0
Load A = Loader → Result A × Loader

abbrev pub continue : {A B : Type 0} → Result A → (A → Load B) → Loader → Result B × Loader
continue (ok a) f l = f a l
continue (err e) f l = (err e, l)

infixl 5 ◌>>=◌
abbrev pub ◌>>=◌ : {A B : Type 0} → Load A → (A → Load B) → Load B
◌>>=◌ m f l = continue (m l).0 f (m l).1

abbrev pub pure : {A : Type 0} → A → Load A
pure a l = (ok a, l)

abbrev pub failed : {A : Type 0} → Error → Load A
failed e l = (err e, l)

-- `source_->Read`
abbrev pub read_source : ℕ → Load Bytes
read_source n l =
    if ltb (length l.input) n
    then (err io_error, l)
    else (ok (take n l.input), record l { input = drop n l.input })

unfoldable pub read_raw : ℕ → Load Bytes
read_raw n l =
    if not l.has_source
    then (err bad_file_descriptor, l)
    else if n == 0
    then (ok [], l)
    else (do
      buf ← read_source n
      λ l'. (ok buf, record l' { checksum = build_crc32 l'.checksum buf }))
        l

abbrev pub head_or_zero : Bytes → ℕ
head_or_zero [] = 0
head_or_zero (b ∷ s) = b

unfoldable pub read_opcode : Load ℕ
unfolding read_raw
read_opcode = do buf ← read_raw 1; pure (head_or_zero buf)

-- The loop of `ReadLen`, `rounds` below eleven; the byte of round ten is shifted by 70.
unfoldable pub read_len_loop : ℕ → ℕ → ℕ → Load ℕ
unfolding read_opcode
read_len_loop zero rounds len = failed invalid_argument
read_len_loop (suc left) rounds len = do
  byte ← read_opcode
  if leb 64 (7 * rounds)
      then failed undefined
      else (let len' = bit_or len (byte % 128 * 2 ^ (7 * rounds) % 2 ^ 64) in
          let more = read_len_loop left (suc rounds) len' in
          if byte % 256 / 128 == 0 then pure len' else more)

-- After eleven rounds `ReadLen` gives up.
unfoldable pub read_len : Load ℕ
unfolding read_len_loop
read_len = read_len_loop 11 0 0

unfoldable pub read_string : Load Bytes
unfolding read_len read_raw
read_string = do len ← read_len; read_raw len

-- The number that the bit pattern of an `int64_t` stands for.
abbrev pub from_u64 : ℕ → ℤ
from_u64 w = if ltb w (2 ^ 63) then pos w else negsuc (2 ^ 64 - 1 - w)

-- `(*table)[field] = value` and `set->insert(member)` of the containers.
pub record Containers : Type 0 where
  pub assign : List (Bytes × Bytes) → Bytes → Bytes → List (Bytes × Bytes)
  pub insert : List Bytes → Bytes → List Bytes

unfoldable pub read_items : ℕ → List NanoObj → Load (List NanoObj)
unfolding read_string
read_items zero list = pure list
read_items (suc count) list = do
  member ← read_string
  read_items count (list ++ from_string member ∷ [])

module _ (c : Containers) where
  unfoldable pub read_fields : ℕ → List (Bytes × Bytes) → Load (List (Bytes × Bytes))
  unfolding read_string
  read_fields zero table = pure table
  read_fields (suc count) table = do
    field ← read_string
    value ← read_string
    read_fields count (c.assign table field value)

  unfoldable pub read_members : ℕ → List Bytes → Load (List Bytes)
  unfolding read_string
  read_members zero set = pure set
  read_members (suc count) set = do member ← read_string; read_members count (c.insert set member)

  unfoldable pub read_object : ℕ → Load NanoObj
  unfolding read_string read_raw read_len read_fields read_members read_items Ops.set_obj
  read_object type =
      if type == nrdb_string
      then (do value ← read_string; pure (from_string value))
      else if type == nrdb_int
      then (do buf ← read_raw 8; pure (from_int (from_u64 (le_value buf))))
      else if type == nrdb_hash
      then (do
        count ← read_len
        table ← read_fields count []
        pure (Ops.set_obj from_hash (hash_obj table)))
      else if type == nrdb_set
      then (do
        count ← read_len
        members ← read_members count []
        pure (Ops.set_obj from_set (set_obj members)))
      else if type == nrdb_list
      then (do
        count ← read_len
        list ← read_items count []
        pure (Ops.set_obj from_list (list_obj (of_list list))))
      else if type == nrdb_zset
      then failed not_supported
      else failed invalid_argument

-- The number of shards, the time and the number of databases are read and not used.
unfoldable pub load_header : Load (Unit {0})
unfolding read_raw
load_header = do
  magic ← read_raw 8
  if not (bytes_eq magic nrdb_magic) then failed invalid_argument else (do
    shard ← read_raw 4
    shards ← read_raw 4
    timestamp ← read_raw 8
    dbs ← read_raw 2
    λ l. if le_value shard == l.expected_shard_id then (ok tt, l) else (err invalid_argument, l))

-- The stored checksum is read past `ReadRaw`, so it does not count into the computed one.
unfoldable pub load_footer : Load (Unit {0})
load_footer l =
    (do
      stored ← read_source 4
      if le_value stored == l.checksum then pure tt else failed invalid_argument)
      l

-- What the handler is called with, and what it has returned so far.
pub record Entry : Type 0 where
  pub dbid : ℕ
  pub key : NanoObj
  pub value : NanoObj
  pub expire_ms : ℤ

-- `dbid`, `expire_ms` and `has_expire` of the loop.
pub record Cursor : Type 0 where
  pub dbid : ℕ
  pub expire : Option ℤ

abbrev pub deadline_of : Option ℤ → ℤ
deadline_of none = pos 0
deadline_of (some ms) = ms

-- The loop of `Load`, over a store of type `S` that the handler changes. Every round reads a byte, so
-- one round more than the source has bytes is enough; out of rounds it ends in `undefined`.
module _ (c : Containers) {S : Type 0} (handler : Entry → S → Result S) where
  abbrev pub handle : Entry → S → Load S
  handle e s l = (handler e s, l)

  -- What follows the opcode, `next` for the next turn.
  abbrev pub turn : (Cursor → S → Load S) → Cursor → S → ℕ → Load S
  turn next cur s opcode =
      if opcode == opcode_db_select
      then (do selected ← read_len; next (record { dbid = selected % 2 ^ 32; expire = none }) s)
      else if opcode == opcode_db_size
      then (do ignored ← read_len; next cur s)
      else if opcode == opcode_expire_ms
      then (do ms ← read_len; next (record cur { expire = some (from_u64 ms) }) s)
      else if opcode == opcode_eof
      then (do done ← load_footer; pure s)
      else (do
        key ← read_string
        value ← read_object c opcode
        s' ←
            handle
              (record {
                dbid = cur.dbid;
                key = from_string key;
                value = value;
                expire_ms = deadline_of cur.expire;
              })
              s
        next (record cur { expire = none }) s')

  unfoldable pub load_loop : ℕ → Cursor → S → Load S
  unfolding read_opcode read_len read_string read_object load_footer
  load_loop zero cur s = failed undefined
  load_loop (suc rounds) cur s = do
    opcode ← read_opcode
    turn (λ cur' s'. load_loop rounds cur' s') cur s opcode

  unfoldable pub load : S → Load S
  unfolding load_header load_loop
  load s l =
      (do
        header ← load_header
        load_loop (suc (length l.input)) (record { dbid = 0; expire = none }) s)
        (record l { checksum = 0 })
