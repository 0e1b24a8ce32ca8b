-- ===== src/Database/Expiry.antt =====
-- The methods of `Database` that look at the deadline of one key.
use nano_redis.Prelude.{ℕ, ◌/◌, Bool, true, false, Option, none, some, Bytes, if◌then◌else◌}
use nano_redis.Prelude.Int.{ℤ, pos, negsuc, ◌+ℤ◌, ◌-ℤ◌, leb_ℤ, int64_max}
use nano_redis.NanoObj.{NanoObj}
use nano_redis.NanoObj.Ops.{to_string}
use nano_redis.Database.{Database, put_at, table_of, expire_table_of}
use nano_redis.Database.Interface.{Table, is_some}

-- `expire_at_ms != nullptr && *expire_at_ms <= now_ms`
abbrev pub is_past : Option ℤ → ℤ → Bool
is_past none now = false
is_past (some at) now = leb_ℤ at now

abbrev pub text_of : Option NanoObj → Option Bytes
text_of none = none
text_of (some o) = some (to_string o)

-- `now_ms + ttl_ms`, held at the largest int64.
unfoldable pub deadline : ℤ → ℤ → ℤ
deadline ttl now = if leb_ℤ (pos int64_max -ℤ now) ttl then pos int64_max else now +ℤ ttl

-- The time left in whole seconds, of a positive number of milliseconds.
abbrev pub seconds : ℤ → ℤ
seconds (pos ms) = pos (ms / 1000)
seconds (negsuc n) = negsuc n

module _ {T : Table NanoObj} {E : Table ℤ} where
  unfoldable pub is_expired_in_db : ℕ → NanoObj → ℤ → Database T E → Bool
  is_expired_in_db db_index key now d = is_past (E.find (d.expire_tables db_index) key) now

  -- The two `Erase` calls that stand together throughout the file.
  abbrev pub erase_in_db : ℕ → NanoObj → Database T E → Database T E
  erase_in_db i key d = record d {
    tables = put_at d.tables i (T.erase (d.tables i) key);
    expire_tables = put_at d.expire_tables i (E.erase (d.expire_tables i) key);
  }

  unfoldable pub prune_expired_in_db : ℕ → NanoObj → ℤ → Database T E → Database T E
  unfolding is_expired_in_db
  prune_expired_in_db i key now d = if is_expired_in_db i key now d then erase_in_db i key d else d

  abbrev pub pruned : NanoObj → ℤ → Database T E → Database T E
  pruned key now d = prune_expired_in_db d.current_db key now d

  -- The methods prune their key first; what they do behind that is a function of its own.
  unfoldable pub find_live : NanoObj → Database T E → Database T E × Option NanoObj
  find_live key d = (d, T.find (table_of d) key)

  unfoldable pub find : NanoObj → ℤ → Database T E → Database T E × Option NanoObj
  find key now d = find_live key (pruned key now d)

  unfoldable pub get_live : NanoObj → Database T E → Database T E × Option Bytes
  get_live key d = (d, text_of (T.find (table_of d) key))

  unfoldable pub get : NanoObj → ℤ → Database T E → Database T E × Option Bytes
  get key now d = get_live key (pruned key now d)

  unfoldable pub exists_live : NanoObj → Database T E → Database T E × Bool
  exists_live key d = (d, is_some (T.find (table_of d) key))

  unfoldable pub exists : NanoObj → ℤ → Database T E → Database T E × Bool
  exists key now d = exists_live key (pruned key now d)

  -- `Erase` returns whether there was an entry; only then the deadline is erased.
  unfoldable pub del_live : NanoObj → Database T E → Database T E × Bool
  del_live key d =
      if is_some (T.find (table_of d) key)
      then (erase_in_db d.current_db key d, true)
      else (record d { tables = put_at d.tables d.current_db (T.erase (table_of d) key) }, false)

  unfoldable pub del : NanoObj → ℤ → Database T E → Database T E × Bool
  del key now d = del_live key (pruned key now d)

  unfoldable pub expire_live : NanoObj → ℤ → ℤ → Database T E → Database T E × Bool
  expire_live key ttl now d =
      if is_some (T.find (table_of d) key)
      then if leb_ℤ ttl (pos 0) then (erase_in_db d.current_db key d, true) else (
        record d {
          expire_tables =
              put_at d.expire_tables d.current_db
                (E.insert (expire_table_of d) key (deadline ttl now));
        },
        true,
      )
      else (d, false)

  unfoldable pub expire : NanoObj → ℤ → ℤ → Database T E → Database T E × Bool
  expire key ttl now d = expire_live key ttl now (pruned key now d)

  unfoldable pub persist_live : NanoObj → Database T E → Database T E × Bool
  persist_live key d =
      if is_some (T.find (table_of d) key)
      then (
        record d {
          expire_tables = put_at d.expire_tables d.current_db (E.erase (expire_table_of d) key);
        },
        is_some (E.find (expire_table_of d) key),
      )
      else (d, false)

  unfoldable pub persist : NanoObj → ℤ → Database T E → Database T E × Bool
  persist key now d = persist_live key (pruned key now d)

  abbrev remaining : NanoObj → ℤ → Database T E → Option ℤ → Database T E × ℤ
  remaining key now d none = (d, negsuc 0)
  remaining key now d (some at) =
      if leb_ℤ at now then (erase_in_db d.current_db key d, negsuc 1) else (d, seconds (at -ℤ now))

  -- -2 without the key, -1 without a deadline.
  unfoldable pub ttl_live : NanoObj → ℤ → Database T E → Database T E × ℤ
  ttl_live key now d =
      if is_some (T.find (table_of d) key)
      then remaining key now d (E.find (expire_table_of d) key)
      else (d, negsuc 1)

  unfoldable pub ttl : NanoObj → ℤ → Database T E → Database T E × ℤ
  ttl key now d = ttl_live key now (pruned key now d)
