-- ===== src/StringFamily/Keyspace.antt =====
-- The handlers of src/command/string_family.cc on many keys and on whole databases, in the branches for
-- one shard, where all of them work on the database of the context; and HELLO.
use nano_redis.Prelude.{
  ℕ, ◌+◌, ◌%◌, Bool, true, false, Option, none, some, List, [], ◌∷◌, ◌++◌, Bytes, codes, length,
  leb, ltb, ◌==◌, if◌then◌else◌, ◌||◌,
}
use nano_redis.Prelude.Int.{ℤ, pos, negsuc, ltb_ℤ}
use nano_redis.NanoObj.{NanoObj}
use nano_redis.NanoObj.Ops.{to_string, copy_from}
use nano_redis.Resp.{make_error, make_integer, make_bulk_string, make_array, ok_response}
use nano_redis.Database.{Database, num_dbs, set, select, clear_current_db, clear_all}
use nano_redis.Database.Interface.{Table}
use nano_redis.Database.Expiry.{get, exists, del, persist}
use nano_redis.Database.Sweep.{key_count, keys}
use nano_redis.ListFamily.Handlers.{Clock, Out, reply}
use nano_redis.StringFamily.{parse_int, wrong_number}
use nano_redis.StringFamily.Handlers.{bulk_or_null, by_number}

-- One more where the call has returned true.
abbrev pub counted_up : Bool → ℕ → ℕ
counted_up true n = n + 1
counted_up false n = n

abbrev pub bulk_strings : List Bytes → Bytes
bulk_strings [] = []
bulk_strings (s ∷ l) = make_bulk_string s ++ bulk_strings l

abbrev pub out_of_range : Bytes
out_of_range = make_error (codes "DB index out of range")

module _ {T : Table NanoObj} {E : Table ℤ} where
  -- The loops make the `i`th call of the clock for their first key.
  unfoldable pub del_all : List NanoObj → Clock → ℕ → Database T E → Database T E × ℕ
  del_all [] clock i d = (d, 0)
  del_all (key ∷ l) clock i d =
      let (d', deleted) = del key (clock i) d in
      let (d'', count) = del_all l clock (i + 1) d' in (d'', counted_up deleted count)

  unfoldable pub del_command : List NanoObj → Clock → Database T E → Out T E
  unfolding del_all
  del_command (name ∷ key ∷ l) clock d =
      let (d', count) = del_all (key ∷ l) clock 0 d in reply (make_integer (pos count)) d'
  del_command _ clock d = reply (wrong_number (codes "DEL")) d

  unfoldable pub exists_all : List NanoObj → Clock → ℕ → Database T E → Database T E × ℕ
  exists_all [] clock i d = (d, 0)
  exists_all (key ∷ l) clock i d =
      let (d', found) = exists key (clock i) d in
      let (d'', count) = exists_all l clock (i + 1) d' in (d'', counted_up found count)

  unfoldable pub exists_command : List NanoObj → Clock → Database T E → Out T E
  unfolding exists_all
  exists_command (name ∷ key ∷ l) clock d =
      let (d', count) = exists_all (key ∷ l) clock 0 d in reply (make_integer (pos count)) d'
  exists_command _ clock d = reply (wrong_number (codes "EXISTS")) d

  unfoldable pub set_pairs : List NanoObj → Clock → ℕ → Database T E → Database T E
  set_pairs (key ∷ value ∷ l) clock i d =
      set_pairs l clock (i + 1) (persist key (clock i) (set key (copy_from value) d)).0
  set_pairs _ clock i d = d

  unfoldable pub m_set : List NanoObj → Clock → Database T E → Out T E
  unfolding set_pairs
  m_set args clock d =
      if ltb (length args) 3 || (length args + 1) % 2 == 1
      then reply (wrong_number (codes "MSET")) d
      else (elim args [
        | [] ↦ reply ok_response d
        | name ∷ l ↦ reply ok_response (set_pairs l clock 0 d)
      ])

  unfoldable pub get_all : List NanoObj → Clock → ℕ → Database T E → Database T E × Bytes
  get_all [] clock i d = (d, [])
  get_all (key ∷ l) clock i d =
      let (d', val) = get key (clock i) d in
      let (d'', result) = get_all l clock (i + 1) d' in (d'', bulk_or_null val ++ result)

  unfoldable pub m_get : List NanoObj → Clock → Database T E → Out T E
  unfolding get_all
  m_get (name ∷ key ∷ l) clock d =
      let (d', result) = get_all (key ∷ l) clock 0 d in
      reply (make_array (pos (length (key ∷ l))) ++ result) d'
  m_get _ clock d = reply (wrong_number (codes "MGET")) d

  -- Without a connection, where the database itself is told.
  abbrev pub select_index : ℤ → Database T E → Out T E
  select_index (negsuc n) d = reply out_of_range d
  select_index (pos n) d =
      if leb num_dbs n
      then reply out_of_range d
      else (let (d', ok) = select n d in if ok then reply ok_response d' else reply out_of_range d')

  unfoldable pub select_command : List NanoObj → Database T E → Out T E
  select_command (name ∷ index ∷ []) d = by_number (parse_int (to_string index)) select_index d
  select_command _ d = reply (wrong_number (codes "SELECT")) d

  -- The pattern is not looked at.
  unfoldable pub keys_command : List NanoObj → Clock → Database T E → Out T E
  keys_command args clock d =
      let (d', all) = keys (clock 0) d in
      reply (make_array (pos (length all)) ++ bulk_strings all) d'

  unfoldable pub flush_db : List NanoObj → Database T E → Out T E
  flush_db args d = reply ok_response (clear_current_db d)

  unfoldable pub db_size : List NanoObj → Clock → Database T E → Out T E
  db_size args clock d =
      let (d', count) = key_count (clock 0) d in reply (make_integer (pos count)) d'

  abbrev pub clear_database : Database T E → Database T E
  clear_database d = clear_all d

abbrev pub no_protocol : Bytes
no_protocol = make_error (codes "NOPROTO unsupported protocol version")

abbrev pub server_info : Bytes
server_info =
    make_array (pos 14)
    ++ bulk_strings
        (codes "server" ∷ codes "nano_redis" ∷ codes "version" ∷ codes "0.1.0" ∷ codes "proto" ∷ [])
    ++ make_integer (pos 2)
    ++ bulk_strings (codes "id" ∷ [])
    ++ make_integer (pos 1)
    ++ bulk_strings
        (codes "mode" ∷ codes "standalone" ∷ codes "role" ∷ codes "master" ∷ codes "modules" ∷ [])
    ++ make_array (pos 0)

abbrev pub for_version : Option ℤ → Bytes
for_version none = no_protocol
for_version (some n) = if ltb_ℤ n (pos 2) || ltb_ℤ (pos 3) n then no_protocol else server_info

unfoldable pub hello : List NanoObj → Bytes
hello (name ∷ version ∷ l) = for_version (parse_int (to_string version))
hello _ = server_info
