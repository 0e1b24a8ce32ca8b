-- ===== src/Database/View.antt =====
-- The abstract keyspace: what a client can see under a key at a time, its value and its deadline.
use nano_redis.Prelude.{ℕ, ◌≡◌, arith, Bool, ◌&&◌, Option, none, some, ◌==◌, if◌then◌else◌}
use nano_redis.Prelude.Int.{ℤ}
use nano_redis.NanoObj.{NanoObj}
use nano_redis.NanoObj.Ops.{obj_eq}
use nano_redis.Database.{Database}
use nano_redis.Database.Interface.{Table}
use nano_redis.Database.Expiry.{is_past, erase_in_db, prune_expired_in_db}

-- A value with its deadline, unless that has come.
abbrev pub visible : Option NanoObj → Option ℤ → ℤ → Option (NanoObj × Option ℤ)
visible none at now = none
visible (some v) at now = if is_past at now then none else some (v, at)

-- The place `(j, q)` is that of `key` in database `i`.
abbrev pub is_at : ℕ → NanoObj → ℕ → NanoObj → Bool
is_at i key j q = (j == i) && obj_eq key q

module _ {T : Table NanoObj} {E : Table ℤ} where
  unfoldable pub entry : ℤ → ℕ → NanoObj → Database T E → Option (NanoObj × Option ℤ)
  entry now i k d = visible (T.find (d.tables i) k) (E.find (d.expire_tables i) k) now

  pub entry-erase_in_db :
      (d : Database T E) (i j : ℕ) (key q : NanoObj) (now : ℤ)
      → entry now j q (erase_in_db i key d) ≡ (if is_at i key j q then none else entry now j q d)
  unfolding entry
  entry-erase_in_db d i j key q now =
      ground (arith, T.find-erase (d.tables i) key q, E.find-erase (d.expire_tables i) key q)

  -- `PruneExpiredInDB` changes nothing that can be seen at its time, under no key of no database.
  pub entry-prune :
      (d : Database T E) (i j : ℕ) (key q : NanoObj) (now : ℤ)
      → entry now j q (prune_expired_in_db i key now d) ≡ entry now j q d
  unfolding entry prune_expired_in_db
  entry-prune d i j key q now = ground (
    arith,
    T.find-erase (d.tables i) key q,
    E.find-erase (d.expire_tables i) key q,
    E.find_congr (d.expire_tables i) key q,
  )
