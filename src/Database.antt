-- ===== src/Database.antt =====
-- src/core/database.cc, include/core/database.h: sixteen tables of values with sixteen tables of
-- deadlines. A function that reads the clock (`CurrentTimeMs`) takes the time as its argument `now`.
pub mod Interface
pub mod Assoc
pub mod Expiry
pub mod Sweep
pub mod View
pub mod Methods
pub mod Deadlines
pub mod Cycle
use nano_redis.Prelude.{
  ℕ, suc, zero, ◌+◌, ◌-◌, ◌/◌, Bool, true, false, Option, none, some, List, [], ◌∷◌, Bytes, map,
  ltb, leb, ◌==◌, if◌then◌else◌, is_empty,
}
use nano_redis.Prelude.Int.{ℤ}
use nano_redis.NanoObj.{NanoObj, from_key}
use nano_redis.NanoObj.Ops.{to_string}
use Interface.{Table}

abbrev pub num_dbs : ℕ
num_dbs = 16

-- The arrays have `num_dbs` entries; they are read below it only.
pub record Database (T : Table NanoObj) (E : Table ℤ) : Type 0 where
  pub tables : ℕ → T.Rep
  pub expire_tables : ℕ → E.Rep
  pub current_db : ℕ

-- A write to one entry of an array.
abbrev pub put_at {ℓ} : {A : Type ℓ} → (ℕ → A) → ℕ → A → ℕ → A
put_at f i a j = if j == i then a else f j

module _ {T : Table NanoObj} {E : Table ℤ} where
  abbrev pub table_of : Database T E → T.Rep
  table_of d = d.tables d.current_db

  abbrev pub expire_table_of : Database T E → E.Rep
  expire_table_of d = d.expire_tables d.current_db

  -- The constructor: empty tables.
  abbrev pub new_database : Database T E
  new_database = record { tables = λ i. T.empty; expire_tables = λ i. E.empty; current_db = 0 }

  -- `Set`, from an object and from a string.
  unfoldable pub set : NanoObj → NanoObj → Database T E → Database T E
  set key value d = record d {
    tables = put_at d.tables d.current_db (T.insert (table_of d) key value);
  }

  abbrev pub set_text : NanoObj → Bytes → Database T E → Database T E
  set_text key value = set key (from_key value)

  -- A write through the pointer that `Find` has returned.
  unfoldable pub assign : NanoObj → NanoObj → Database T E → Database T E
  assign key value d = record d {
    tables = put_at d.tables d.current_db (T.assign (table_of d) key value);
  }

  unfoldable pub select : ℕ → Database T E → Database T E × Bool
  select db_index d =
      if leb num_dbs db_index then (d, false) else (record d { current_db = db_index }, true)

  unfoldable pub clear_current_db : Database T E → Database T E
  clear_current_db d = record d {
    tables = put_at d.tables d.current_db (T.clear (table_of d));
    expire_tables = put_at d.expire_tables d.current_db (E.clear (expire_table_of d));
  }

  -- The loop over the first `n` databases.
  clear_first : ℕ → Database T E → Database T E
  clear_first zero d = d
  clear_first (suc i) d =
      let d' = clear_first i d in
      record d' {
        tables = put_at d'.tables i (T.clear (d'.tables i));
        expire_tables = put_at d'.expire_tables i (E.clear (d'.expire_tables i));
      }

  unfoldable pub clear_all : Database T E → Database T E
  unfolding clear_first
  clear_all = clear_first num_dbs
