-- ===== src/Rdb/Turns.antt =====
-- The turns of the loop of `Load` in src/core/rdb_loader.cc that read what one `SaveEntry` wrote.
use nano_redis.Prelude.{
  ℕ, suc, ◌%◌, ◌^◌, ◌<◌, Bool, true, false, not, Bool-cases, ◌⊎◌, inl, inr, Option, none, some, [],
  ◌∷◌, ◌++◌, Bytes, ◌==◌, if◌then◌else◌, ◌≡◌, refl, arith,
}
use mathlib.Core.Path.{subst}
use nano_redis.Prelude.Int.{ℤ, pos, IsInt64, ltb_ℤ}
use nano_redis.NanoObj.{
  NanoObj, inline_str, int_tag, small_str, robj, null_tag, list_obj, set_obj, hash_obj, null_ptr,
  from_string,
}
use nano_redis.NanoObj.Ops.{get_string_view}
use nano_redis.Rdb.{opcode_db_select, opcode_db_size, opcode_expire_ms, opcode_eof}
use nano_redis.Rdb.Numbers.{from_u64-to_u64, to_u64_small}
use nano_redis.Rdb.Save.{len_bytes, to_u64}
use nano_redis.Rdb.Load
use nano_redis.Rdb.Load.{
  Load, Result, ok, Containers, Entry, Cursor, deadline_of, read_opcode, read_len, read_string,
  read_object, load_loop, from_u64,
}
use nano_redis.Rdb.Pieces.{read_opcode-Reads}
use nano_redis.Rdb.Lengths.{string_bytes, read_len-Reads, read_string-Reads}
use nano_redis.Rdb.Values.{type_byte, value_bytes, reloaded, value-Reads}
use nano_redis.Rdb.Entries.{
  Steps, Steps-trans, Reads→Steps, Saved, IsEntry, no_db, select_bytes, deadline_bytes, body_bytes,
  entry_bytes,
}

type_byte-small : (o : NanoObj) → type_byte o < 240
unfolding type_byte
type_byte-small (inline_str s) = omega arith
type_byte-small (int_tag z) = omega arith
type_byte-small (small_str n p b) = omega arith
type_byte-small (robj t e n (list_obj l)) = omega arith
type_byte-small (robj t e n (set_obj l)) = omega arith
type_byte-small (robj t e n (hash_obj l)) = omega arith
type_byte-small (robj t e n null_ptr) = omega arith
type_byte-small null_tag = omega arith

unequal : (a b : ℕ) → a < b → (a == b) ≡ false
unequal a b h = ground (arith, h)

-- One turn more, on a condition.
abbrev pub one_if : Bool → ℕ → ℕ
one_if true n = suc n
one_if false n = n

-- The handler's store, and what an entry of the dump is to the handler.
module _ (c : Containers) {S : Type 0} (h : Entry → S → S) where
  abbrev pub handler : Entry → S → Result S
  handler e s = ok (h e s)

  abbrev pub seen : Saved → ℤ → Entry
  seen e ms = record {
    dbid = e.dbid;
    key = from_string (get_string_view e.key);
    value = reloaded c e.value;
    expire_ms = ms;
  }

  abbrev next : ℕ → Cursor → S → Load S
  next fuel cur s = load_loop c handler fuel cur s

  -- One turn, behind its opcode.
  turn-Steps :
      (fuel opcode : ℕ) (cur : Cursor) (s : S) (w : Bytes) (k : Load S)
      → Steps (Load.turn c handler (next fuel) cur s opcode) w k
      → Steps (load_loop c handler (suc fuel) cur s) (opcode ∷ w) k
  unfolding load_loop
  turn-Steps fuel opcode cur s w k p =
      Steps-trans (load_loop c handler (suc fuel) cur s)
        (Load.turn c handler (next fuel) cur s opcode) k (opcode ∷ []) w
        (Reads→Steps read_opcode (Load.turn c handler (next fuel) cur s) (opcode ∷ []) opcode
          (read_opcode-Reads opcode))
        p

  select-Steps :
      (fuel dbid : ℕ) (cur : Cursor) (s : S)
      → dbid < no_db
      → Steps
          (load_loop c handler (suc fuel) cur s)
          (opcode_db_select ∷ len_bytes 10 dbid)
          (load_loop c handler fuel (record { dbid = dbid; expire = none }) s)
  select-Steps fuel dbid cur s small =
      turn-Steps fuel opcode_db_select cur s (len_bytes 10 dbid)
        (next fuel (record { dbid = dbid; expire = none }) s)
        (subst
          (λ d.
            Steps (Load.turn c handler (next fuel) cur s opcode_db_select) (len_bytes 10 dbid)
              (next fuel (record { dbid = d; expire = none }) s))
          same
          (Reads→Steps read_len (λ d. next fuel (record { dbid = d % 2 ^ 32; expire = none }) s)
            (len_bytes 10 dbid) dbid (read_len-Reads dbid (omega arith))))
    where
      same : dbid % 2 ^ 32 ≡ dbid
      same = omega (arith, small)

  deadline-Steps :
      (fuel : ℕ) (z : ℤ) (cur : Cursor) (s : S)
      → IsInt64 z
      → Steps
          (load_loop c handler (suc fuel) cur s)
          (opcode_expire_ms ∷ len_bytes 10 (to_u64 z))
          (load_loop c handler fuel (record cur { expire = some z }) s)
  deadline-Steps fuel z cur s fits =
      turn-Steps fuel opcode_expire_ms cur s (len_bytes 10 (to_u64 z))
        (next fuel (record cur { expire = some z }) s)
        (subst
          (λ y.
            Steps (Load.turn c handler (next fuel) cur s opcode_expire_ms) (len_bytes 10 (to_u64 z))
              (next fuel (record cur { expire = some y }) s))
          (from_u64-to_u64 z fits)
          (Reads→Steps read_len (λ ms. next fuel (record cur { expire = some (from_u64 ms) }) s)
            (len_bytes 10 (to_u64 z)) (to_u64 z) (read_len-Reads (to_u64 z) (to_u64_small z fits))))

  body-Steps :
      (fuel : ℕ) (e : Saved) (cur : Cursor) (s : S)
      → IsEntry e
      → cur.dbid ≡ e.dbid
      → Steps (load_loop c handler (suc fuel) cur s) (body_bytes e) (
          load_loop c handler fuel
            (record { dbid = e.dbid; expire = none })
            (h (seen e (deadline_of cur.expire)) s))
  body-Steps fuel e cur s (_, (hk, (_, hv))) same =
      turn-Steps fuel (type_byte e.value) cur s (string_bytes text ++ value_bytes e.value)
        (next fuel (record { dbid = e.dbid; expire = none }) s')
        (rw
          (
            unequal (type_byte e.value) opcode_db_select (omega (arith, small)),
            unequal (type_byte e.value) opcode_db_size (omega (arith, small)),
            unequal (type_byte e.value) opcode_expire_ms (omega (arith, small)),
            unequal (type_byte e.value) opcode_eof (omega (arith, small)),
          )
          (subst
            (λ (d : ℕ).
              Steps (Load.◌>>=◌ read_string after_key) (string_bytes text ++ value_bytes e.value)
                (finish d (reloaded c e.value)))
            same
            (Steps-trans (Load.◌>>=◌ read_string after_key) (after_key text)
              (finish cur.dbid (reloaded c e.value)) (string_bytes text) (value_bytes e.value)
              (Reads→Steps read_string after_key (string_bytes text) text
                (read_string-Reads text hk))
              (Reads→Steps (read_object c (type_byte e.value)) (after_value text)
                (value_bytes e.value) (reloaded c e.value) (value-Reads c e.value hv)))))
    where
      text : Bytes
      text = get_string_view e.key

      entry : ℕ → Bytes → NanoObj → Entry
      entry d key value = record {
        dbid = d;
        key = from_string key;
        value = value;
        expire_ms = deadline_of cur.expire;
      }

      after_value : Bytes → NanoObj → Load S
      after_value key value =
          Load.◌>>=◌ (Load.handle c handler (entry cur.dbid key value) s)
            (λ t. next fuel (record cur { expire = none }) t)

      after_key : Bytes → Load S
      after_key key = Load.◌>>=◌ (read_object c (type_byte e.value)) (after_value key)

      finish : ℕ → NanoObj → Load S
      finish d value = next fuel (record { dbid = d; expire = none }) (h (entry d text value) s)

      s' : S
      s' = h (seen e (deadline_of cur.expire)) s

      small : type_byte e.value < 240
      small = type_byte-small e.value

  -- The deadline that the handler gets: 0 for none.
  abbrev pub deadline_seen : ℤ → ℤ
  deadline_seen z = if ltb_ℤ (pos 0) z then z else pos 0

  deadline_body-Steps :
      (fuel : ℕ) (e : Saved) (cur : Cursor) (s : S)
      → IsEntry e
      → cur.dbid ≡ e.dbid
      → cur.expire ≡ none
      → Steps
          (load_loop c handler (one_if (ltb_ℤ (pos 0) e.expire_ms) (suc fuel)) cur s)
          (deadline_bytes e.expire_ms ++ body_bytes e)
          (load_loop c handler fuel
            (record { dbid = e.dbid; expire = none })
            (h (seen e (deadline_seen e.expire_ms)) s))
  unfolding deadline_bytes
  deadline_body-Steps fuel e cur s v same none_yet = elim (Bool-cases (ltb_ℤ (pos 0) e.expire_ms)) [
    | inl p ↦ rw p (
        Steps-trans (load_loop c handler (suc (suc fuel)) cur s)
          (load_loop c handler (suc fuel) (record cur { expire = some e.expire_ms }) s)
          (load_loop c handler fuel (record { dbid = e.dbid; expire = none })
            (h (seen e e.expire_ms) s))
          (opcode_expire_ms ∷ len_bytes 10 (to_u64 e.expire_ms)) (body_bytes e)
          (deadline-Steps (suc fuel) e.expire_ms cur s v.1.1.0)
          (body-Steps fuel e (record cur { expire = some e.expire_ms }) s v same))
    | inr p ↦ rw p (
        subst
          (λ (o : Option ℤ). Steps (load_loop c handler (suc fuel) cur s) (body_bytes e) (
            load_loop c handler fuel (record { dbid = e.dbid; expire = none })
              (h (seen e (deadline_of o)) s)))
          none_yet (body-Steps fuel e cur s v same))
  ]

  -- Saved into the database `last`, read with the cursor in the same one or before the first entry.
  pub entry-Steps :
      (fuel last : ℕ) (e : Saved) (cur : Cursor) (s : S)
      → IsEntry e
      → (cur.dbid ≡ last) ⊎ (last ≡ no_db)
      → cur.expire ≡ none
      → Steps
          (load_loop c handler
            (one_if (not (e.dbid == last)) (one_if (ltb_ℤ (pos 0) e.expire_ms) (suc fuel)))
            cur
            s)
          (entry_bytes last e)
          (load_loop c handler fuel
            (record { dbid = e.dbid; expire = none })
            (h (seen e (deadline_seen e.expire_ms)) s))
  unfolding select_bytes
  entry-Steps fuel last e cur s v synced none_yet = elim (Bool-cases (e.dbid == last)) [
    | inl p ↦ rw p (deadline_body-Steps fuel e cur s v (ground (arith, p, v.0, synced)) none_yet)
    | inr p ↦
        let fuel' = one_if (ltb_ℤ (pos 0) e.expire_ms) (suc fuel) in
        let there : Cursor = record { dbid = e.dbid; expire = none } in
        rw p (
          Steps-trans (load_loop c handler (suc fuel') cur s) (load_loop c handler fuel' there s)
            (load_loop c handler fuel there (h (seen e (deadline_seen e.expire_ms)) s))
            (opcode_db_select ∷ len_bytes 10 e.dbid) (deadline_bytes e.expire_ms ++ body_bytes e)
            (select-Steps fuel' e.dbid cur s v.0) (deadline_body-Steps fuel e there s v refl refl))
  ]
