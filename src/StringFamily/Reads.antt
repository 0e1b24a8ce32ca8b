-- ===== src/StringFamily/Reads.antt =====
-- `Get` and then `Set` on one key, as the handlers of src/command/string_family.cc use them.
use nano_redis.Prelude.{◌≡◌, refl, ap, ◌∙◌, arith, Option, none, some, Bytes, if◌then◌else◌}
use nano_redis.Prelude.Int.{ℤ}
use nano_redis.NanoObj.{NanoObj}
use nano_redis.NanoObj.Ops.{to_string}
use nano_redis.Database.{Database, table_of, expire_table_of, set}
use nano_redis.Database.Interface.{Table}
use nano_redis.Database.Expiry.{is_past, erase_in_db, get, get_live, text_of, prune_expired_in_db}
use nano_redis.Database.View.{entry}
use nano_redis.Database.Deadlines.{entry-set}
use nano_redis.ListFamily.Changes.{Changed, visible_inv}

module _ {T : Table NanoObj} {E : Table ℤ} where
  -- Where a value can be seen, `Get` returns its text and leaves the database as it is.
  pub get_seen :
      (now : ℤ) (key obj : NanoObj) (at : Option ℤ) (d : Database T E)
      → entry now d.current_db key d ≡ some (obj, at)
      → get key now d ≡ (d, some (to_string obj))
  unfolding get get_live prune_expired_in_db entry
  get_seen now key obj at d h =
      let (f, e, p) =
        visible_inv (T.find (table_of d) key) (E.find (expire_table_of d) key) at now obj h in
      ap (λ b. get_live key (if b then erase_in_db d.current_db key d else d)) p
      ∙ ap (λ (o : Option NanoObj). (d, text_of o)) f

  -- A value set over one that can be seen keeps the deadline.
  pub set_seen :
      (now : ℤ) (key obj v : NanoObj) (at : Option ℤ) (r : Bytes) (d : Database T E)
      → entry now d.current_db key d ≡ some (obj, at)
      → Changed now key (some (v, at)) r d (set key v d, some r)
  unfolding entry
  set_seen now key obj v at r d h =
      let (f, e, p) =
        visible_inv (T.find (table_of d) key) (E.find (expire_table_of d) key) at now obj h in
      record { replies = refl; writes = λ j q. entry-set key v now d j q ∙ ground (arith, e, p) }

  -- Nothing is seen under the key, and no deadline is left there.
  pub record Absent (now : ℤ) (key : NanoObj) (d : Database T E) : Type 0 where
    pub value : T.find (table_of d) key ≡ none
    pub deadline : E.find (expire_table_of d) key ≡ none

  pub get-Absent :
      (now : ℤ) (key : NanoObj) (d : Database T E) → Absent now key d → get key now d ≡ (d, none)
  unfolding get get_live prune_expired_in_db
  get-Absent now key d h =
      ap
        (λ (o : Option ℤ).
          get_live key (if is_past o now then erase_in_db d.current_db key d else d))
        h.deadline
      ∙ ap (λ (o : Option NanoObj). (d, text_of o)) h.value

  pub set-Absent :
      (now : ℤ) (key v : NanoObj) (r : Bytes) (d : Database T E)
      → Absent now key d
      → Changed now key (some (v, none)) r d (set key v d, some r)
  set-Absent now key v r d h = record {
    replies = refl;
    writes = λ j q. entry-set key v now d j q ∙ ground (arith, h.deadline);
  }
