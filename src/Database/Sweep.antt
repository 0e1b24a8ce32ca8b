-- ===== src/Database/Sweep.antt =====
-- The methods of `Database` that walk over a table: `KeyCount`, `Keys`, `ActiveExpireCycle` and
-- `ForEachInDB`.
use nano_redis.Prelude.{
  ℕ, suc, zero, ◌+◌, Option, none, some, List, [], ◌∷◌, Bytes, map, length, take, leb, ◌==◌,
  if◌then◌else◌,
}
use nano_redis.Prelude.Int.{ℤ, pos}
use nano_redis.NanoObj.{NanoObj}
use nano_redis.NanoObj.Ops.{to_string}
use nano_redis.Database.{Database, num_dbs, table_of, expire_table_of}
use nano_redis.Database.Interface.{Table, is_some}
use nano_redis.Database.Expiry.{is_past, erase_in_db}

-- The keys whose deadline has come.
unfoldable pub expired_keys : ℤ → List (NanoObj × ℤ) → List NanoObj
expired_keys now [] = []
expired_keys now ((key, at) ∷ l) =
    let later = expired_keys now l in if is_past (some at) now then key ∷ later else later

abbrev pub expire_ms : Option ℤ → ℤ
expire_ms none = pos 0
expire_ms (some at) = at

-- What the callback is called with: key, value and deadline, or 0 for none.
unfoldable pub live_entries :
    (NanoObj → Option ℤ) → ℤ → List (NanoObj × NanoObj) → List (NanoObj × NanoObj × ℤ)
live_entries find_deadline now [] = []
live_entries find_deadline now ((key, value) ∷ l) =
    let later = live_entries find_deadline now l in
    if is_past (find_deadline key) now
    then later
    else (key, value, expire_ms (find_deadline key)) ∷ later

module _ {T : Table NanoObj} {E : Table ℤ} where
  unfoldable pub erase_keys : ℕ → List NanoObj → Database T E → Database T E
  erase_keys i [] d = d
  erase_keys i (key ∷ l) d = erase_keys i l (erase_in_db i key d)

  -- The first half of `KeyCount` and of `Keys`.
  abbrev pub sweep : ℤ → Database T E → Database T E
  sweep now d = erase_keys d.current_db (expired_keys now (E.entries (expire_table_of d))) d

  unfoldable pub key_count : ℤ → Database T E → Database T E × ℕ
  unfolding expired_keys erase_keys
  key_count now d = let d' = sweep now d in (d', length (T.entries (table_of d')))

  unfoldable pub keys : ℤ → Database T E → Database T E × List Bytes
  unfolding expired_keys erase_keys
  keys now d = let d' = sweep now d in (d', map (λ e. to_string e.0) (T.entries (table_of d')))

  -- The keys that had a value are counted.
  unfoldable pub delete_keys : ℕ → List NanoObj → Database T E → ℕ → Database T E × ℕ
  delete_keys i [] d deleted = (d, deleted)
  delete_keys i (key ∷ l) d deleted =
      delete_keys i l (erase_in_db i key d)
        (if is_some (T.find (d.tables i) key) then deleted + 1 else deleted)

  -- The loop over the first `n` databases, each scanned up to `max_keys` entries.
  unfoldable pub cycle_first : ℕ → ℕ → ℤ → Database T E → Database T E × ℕ
  unfolding expired_keys delete_keys
  cycle_first zero max_keys now d = (d, 0)
  cycle_first (suc i) max_keys now d =
      let (d', deleted) = cycle_first i max_keys now d in
      delete_keys i (expired_keys now (take max_keys (E.entries (d'.expire_tables i)))) d' deleted

  unfoldable pub active_expire_cycle : ℕ → ℤ → Database T E → Database T E × ℕ
  unfolding cycle_first
  active_expire_cycle max_keys now d =
      if max_keys == 0 then (d, 0) else cycle_first num_dbs max_keys now d

  unfoldable pub for_each_in_db : ℕ → ℤ → Database T E → List (NanoObj × NanoObj × ℤ)
  unfolding live_entries
  for_each_in_db i now d =
      if leb num_dbs i
      then []
      else live_entries (E.find (d.expire_tables i)) now (T.entries (d.tables i))
