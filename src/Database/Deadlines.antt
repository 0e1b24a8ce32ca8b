-- ===== src/Database/Deadlines.antt =====
-- `Expire`, `TTL` and `Set` of src/core/database.cc on the abstract keyspace.
use nano_redis.Prelude.{ℕ, Bool, ap, ◌≡◌, arith, true, false, Option, none, some, if◌then◌else◌}
use nano_redis.Prelude.Int.{ℤ, pos, negsuc, leb_ℤ, ltb_ℤ, ◌-ℤ◌, ◌+ℤ◌, int64_max}
use nano_redis.NanoObj.{NanoObj}
use nano_redis.NanoObj.Ops.{obj_eq}
use nano_redis.Database.{Database, table_of, expire_table_of, set}
use nano_redis.Database.Interface.{Table, is_some}
use nano_redis.Database.Expiry.{
  is_past, pruned, expire, expire_live, deadline, persist, ttl, ttl_live, seconds,
}
use nano_redis.Database.View.{visible, entry, is_at}
use nano_redis.Database.Methods.{Updates, Updates-pruned, IsLive, IsLive-prune, persist-Updates}

-- The end of a time to live, no later than the largest int64.
abbrev pub end_of : ℤ → ℤ → ℤ
end_of ttl now = if leb_ℤ (pos int64_max) (now +ℤ ttl) then pos int64_max else now +ℤ ttl

pub deadline_lem : (ttl now : ℤ) → deadline ttl now ≡ end_of ttl now
unfolding deadline
deadline_lem ttl now =
    let same : leb_ℤ (pos int64_max -ℤ now) ttl ≡ leb_ℤ (pos int64_max) (now +ℤ ttl) =
      ground arith in
    ap (λ (c : Bool). if c then pos int64_max else now +ℤ ttl) same

-- What `Expire` does to an entry.
abbrev pub with_deadline : ℤ → ℤ → Option (NanoObj × Option ℤ) → Option (NanoObj × Option ℤ)
with_deadline ttl now none = none
with_deadline ttl now (some e) =
    if leb_ℤ ttl (pos 0) then none else some (e.0, some (end_of ttl now))

-- What `TTL` says of an entry.
abbrev pub seconds_left : ℤ → Option (NanoObj × Option ℤ) → ℤ
seconds_left now none = negsuc 1
seconds_left now (some (v, none)) = negsuc 0
seconds_left now (some (v, some at)) = seconds (at -ℤ now)

-- A deadline that a positive time to live sets is still to come.
pub deadline_later :
    (ttl now : ℤ)
    → ltb_ℤ now (pos int64_max) ≡ true
    → leb_ℤ ttl (pos 0) ≡ false
    → leb_ℤ (deadline ttl now) now ≡ false
unfolding deadline
deadline_later ttl now h p = ground arith

module _ {T : Table NanoObj} {E : Table ℤ} where
  expire_live-Updates :
      (key : NanoObj) (ttl now : ℤ) (d : Database T E)
      → ltb_ℤ now (pos int64_max) ≡ true
      → IsLive key now d
      → Updates d.current_db now key is_some (with_deadline ttl now) d (expire_live key ttl now d)
  unfolding expire_live entry
  expire_live-Updates key ttl now d small live = record {
    returns = ground arith;
    writes = λ j q. ground (
      arith,
      deadline_later ttl now,
      deadline_lem ttl now,
      T.find-erase (table_of d) key q,
      E.find-erase (expire_table_of d) key q,
      E.find-insert (expire_table_of d) key q (deadline ttl now),
      T.find_congr (table_of d) key q,
      E.find_congr (expire_table_of d) key q,
    );
  }

  -- Before the clock's largest value, `Expire` returns whether a value can be seen under the key; a
  -- positive time to live gives it the sum of the time and the time to live as its deadline, held
  -- at the largest int64, any other removes it; every other entry of every database is as before.
  pub expire-Updates :
      (key : NanoObj) (ttl now : ℤ) (d : Database T E)
      → ltb_ℤ now (pos int64_max) ≡ true
      → Updates d.current_db now key is_some (with_deadline ttl now) d (expire key ttl now d)
  unfolding expire
  expire-Updates key ttl now d small =
      Updates-pruned now key _ _ d _
        (expire_live-Updates key ttl now (pruned key now d) small (IsLive-prune key now d))

  ttl_live-Updates :
      (key : NanoObj) (now : ℤ) (d : Database T E)
      → IsLive key now d
      → Updates d.current_db now key (seconds_left now) (λ e. e) d (ttl_live key now d)
  unfolding ttl_live entry
  ttl_live-Updates key now d live = record {
    returns = ground arith;
    writes = λ j q.
        ground (arith, T.find_congr (table_of d) key q, E.find_congr (expire_table_of d) key q);
  }

  -- `TTL` returns -2 where no value can be seen under the key, -1 where it has no deadline, and
  -- else the whole seconds that are left; nothing that can be seen changes.
  pub ttl-Updates :
      (key : NanoObj) (now : ℤ) (d : Database T E)
      → Updates d.current_db now key (seconds_left now) (λ e. e) d (ttl key now d)
  unfolding ttl
  ttl-Updates key now d =
      Updates-pruned now key _ _ d _
        (ttl_live-Updates key now (pruned key now d) (IsLive-prune key now d))

  -- After `Set`, what can be seen under the key is the new value with the deadline that the key had
  -- before, and nothing where that deadline has come; every other entry of every database is as
  -- before.
  pub entry-set :
      (key value : NanoObj) (now : ℤ) (d : Database T E) (j : ℕ) (q : NanoObj)
      → entry now j q (set key value d) ≡ (
          if is_at d.current_db key j q
          then visible (some value) (E.find (expire_table_of d) key) now
          else entry now j q d)
  unfolding entry set
  entry-set key value now d j q =
      ground (arith, T.find-insert (table_of d) key q value, E.find_congr (expire_table_of d) key q)

  -- `Set` and then `Persist` on a key that is equal to itself, as the command SET calls them: the
  -- new value can be seen, without a deadline, unless the key had a deadline that has come and was
  -- not pruned; then nothing can be seen under the key.
  pub entry-persist-set :
      (key value : NanoObj) (now : ℤ) (d : Database T E)
      → obj_eq key key ≡ true
      → entry now d.current_db key (persist key now (set key value d)).0
        ≡ (if is_past (E.find (expire_table_of d) key) now then none else some (value, none))
  unfolding set
  entry-persist-set key value now d h = ground (
    arith,
    (persist-Updates key now (set key value d)).writes d.current_db key,
    entry-set key value now d d.current_db key,
  )
