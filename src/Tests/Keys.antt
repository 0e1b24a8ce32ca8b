-- ===== src/Tests/Keys.antt =====
-- A database with one key, which has a deadline, at times before and after that.
use nano_redis.Prelude.{none, some, [], ◌∷◌, codes, ◌==◌, if◌then◌else◌, ◌≡◌, refl}
use nano_redis.Prelude.Int.{pos}
use nano_redis.NanoObj.{NanoObj, inline_str, int_tag}
use nano_redis.NanoObj.Ops.{obj_eq}
use nano_redis.Database.{Database, set}
use nano_redis.Database.Interface.{is_some}
use nano_redis.Database.Assoc.{assoc_table}
use nano_redis.Database.Expiry.{is_past, expire, persist}
use nano_redis.Database.View.{entry}
use nano_redis.Database.Methods.{Updates}
use nano_redis.Database.Cycle.{AllListed, entry-active_expire_cycle}
use nano_redis.Database.Sweep.{active_expire_cycle}
use nano_redis.Database.Deadlines.{with_deadline, expire-Updates, entry-persist-set}

abbrev key : NanoObj
key = int_tag (pos 7)

abbrev value : NanoObj
value = inline_str (codes "seven")

abbrev keyspace : Database assoc_table assoc_table
keyspace = record {
  tables = λ i. if i == 0 then (key, value) ∷ [] else [];
  expire_tables = λ i. if i == 0 then (key, pos 5000) ∷ [] else [];
  current_db = 0;
}

expire-Updates_example :
    Updates 0
      (pos 1000)
      key
      is_some
      (with_deadline (pos 10) (pos 1000))
      keyspace
      (expire key (pos 10) (pos 1000) keyspace)
expire-Updates_example = expire-Updates key (pos 10) (pos 1000) keyspace refl

entry-persist-set_example :
    entry (pos 9000) 0 key (persist key (pos 9000) (set key (int_tag (pos 8)) keyspace)).0
    ≡ (if is_past (some (pos 5000)) (pos 9000) then none else some (int_tag (pos 8), none))
unfolding obj_eq
entry-persist-set_example = entry-persist-set key (int_tag (pos 8)) (pos 9000) keyspace refl

-- The key in all sixteen databases.
abbrev everywhere : Database assoc_table assoc_table
everywhere = record {
  tables = λ i. (key, value) ∷ [];
  expire_tables = λ i. (key, pos 5000) ∷ [];
  current_db = 0;
}

everywhere-AllListed : AllListed everywhere
unfolding obj_eq
everywhere-AllListed i = (refl, tt)

entry-active_expire_cycle_example :
    entry (pos 9000) 3 key (active_expire_cycle 32 (pos 9000) everywhere).0
    ≡ entry (pos 9000) 3 key everywhere
entry-active_expire_cycle_example =
    entry-active_expire_cycle 32 (pos 9000) everywhere 3 key everywhere-AllListed
