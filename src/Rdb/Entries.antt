-- ===== src/Rdb/Entries.antt =====
-- `SaveEntry` of src/core/rdb_serializer.cc against a turn of the loop of `Load` in
-- src/core/rdb_loader.cc.
use nano_redis.Prelude.{
  ℕ, suc, ◌-◌, ◌^◌, ◌<◌, ◌≤◌, true, false, Bool-cases, inl, inr, none, [], ◌∷◌, ◌++◌, Bytes, length,
  length-append, append_assoc, ◌==◌, if◌then◌else◌, ◌≡◌, refl, sym, ap, ◌∙◌, arith,
}
use mathlib.Core.Path.{subst}
use nano_redis.Prelude.Int.{ℤ, pos, IsInt64, ltb_ℤ}
use nano_redis.NanoObj.{NanoObj}
use nano_redis.NanoObj.Ops.{get_string_view}
use nano_redis.Rdb.{build_crc32, opcode_db_select, opcode_expire_ms}
use nano_redis.Rdb.Checksum.{build_crc32-nil, build_crc32-append}
use nano_redis.Rdb.Save
use nano_redis.Rdb.Save.{
  Saver, Save, ◌>>◌, write_opcode, save_len, len_bytes, save_string, save_select_db, save_deadline,
  save_entry, save_object_type_opcode, save_object_data, to_u64,
}
use nano_redis.Rdb.Load
use nano_redis.Rdb.Load.{
  Loader, Load, Result, ok, err, Containers, Entry, Cursor, deadline_of, read_opcode, read_len,
  read_string, read_object, load_loop, from_u64,
}
use nano_redis.Rdb.Pieces.{
  before, wrote, wrote-nil, wrote-append, Writes, Reads, write_raw-Writes, success-Writes,
  then-Writes,
}
use nano_redis.Rdb.Lengths.{string_bytes, save_len-Writes, save_string-Writes}
use nano_redis.Rdb.Objects.{Measured}
use nano_redis.Rdb.Values.{type_byte, value_bytes, IsStored, type_opcode-Writes, value-Writes}

-- What `m` does at `w` and more, is what `k` does behind `w`.
abbrev pub Steps : {A : Type 0} → Load A → Bytes → Load A → Type 0
Steps m w k =
    (shard c : ℕ) (rest : Bytes)
    → m (before shard c (w ++ rest)) ≡ k (before shard (build_crc32 c w) rest)

pub Steps-nil : {A : Type 0} (m : Load A) → Steps m [] m
Steps-nil m shard c rest = ap (λ (d : ℕ). m (before shard d rest)) (sym (build_crc32-nil c))

pub Steps-trans :
    {A : Type 0} (m k n : Load A) (v w : Bytes) → Steps m v k → Steps k w n → Steps m (v ++ w) n
Steps-trans m k n v w p q shard c rest =
    ap (λ (t : Bytes). m (before shard c t)) (append_assoc v w rest)
    ∙ p shard c (w ++ rest)
    ∙ q shard (build_crc32 c v) rest
    ∙ ap (λ (d : ℕ). n (before shard d rest)) (build_crc32-append c v w)

pub Reads→Steps :
    {A B : Type 0} (m : Load A) (f : A → Load B) (w : Bytes) (a : A)
    → Reads m w a
    → Steps (Load.◌>>=◌ m f) w (f a)
Reads→Steps m f w a p shard c rest = ap (λ o. Load.continue o.0 f o.1) (p shard c rest)

-- An entry to save.
pub record Saved : Type 0 where
  pub dbid : ℕ
  pub key : NanoObj
  pub value : NanoObj
  pub expire_ms : ℤ

abbrev pub no_db : ℕ
no_db = 2 ^ 32 - 1

-- What `SaveEntry` is called with.
abbrev pub IsEntry : Saved → Type 0
IsEntry e =
    (e.dbid < no_db)
    × ((Measured (get_string_view e.key)) × ((IsInt64 e.expire_ms) × (IsStored e.value)))

unfoldable pub select_bytes : ℕ → ℕ → Bytes
unfolding len_bytes
select_bytes last dbid = if dbid == last then [] else opcode_db_select ∷ len_bytes 10 dbid

unfoldable pub deadline_bytes : ℤ → Bytes
unfolding len_bytes
deadline_bytes z = if ltb_ℤ (pos 0) z then opcode_expire_ms ∷ len_bytes 10 (to_u64 z) else []

abbrev pub body_bytes : Saved → Bytes
body_bytes e = type_byte e.value ∷ (string_bytes (get_string_view e.key) ++ value_bytes e.value)

deadline-Writes : (z : ℤ) → Writes (save_deadline z) (deadline_bytes z)
unfolding save_deadline deadline_bytes
deadline-Writes z = elim (Bool-cases (ltb_ℤ (pos 0) z)) [
  | inl h ↦ rw h (
      then-Writes (write_opcode opcode_expire_ms) (save_len (to_u64 z)) (opcode_expire_ms ∷ [])
        (len_bytes 10 (to_u64 z)) (write_raw-Writes (opcode_expire_ms ∷ []))
        (save_len-Writes (to_u64 z)))
  | inr h ↦ rw h success-Writes
]

body-Writes :
    (e : Saved)
    → IsStored e.value
    → Writes
        (do
          save_deadline e.expire_ms
          save_object_type_opcode e.value
          save_string (get_string_view e.key)
          save_object_data e.value)
        (deadline_bytes e.expire_ms ++ body_bytes e)
body-Writes e h =
    then-Writes (save_deadline e.expire_ms)
      (do
        save_object_type_opcode e.value
        save_string (get_string_view e.key)
        save_object_data e.value)
      (deadline_bytes e.expire_ms) (body_bytes e) (deadline-Writes e.expire_ms)
      (then-Writes (save_object_type_opcode e.value)
        (do save_string (get_string_view e.key); save_object_data e.value) (type_byte e.value ∷ [])
        (string_bytes (get_string_view e.key) ++ value_bytes e.value) (type_opcode-Writes e.value h)
        (then-Writes (save_string (get_string_view e.key)) (save_object_data e.value)
          (string_bytes (get_string_view e.key)) (value_bytes e.value)
          (save_string-Writes (get_string_view e.key)) (value-Writes e.value h)))

-- The serializer behind the bytes `w`, in the database `dbid`.
abbrev pub wrote_in : ℕ → Bytes → Saver → Saver
wrote_in dbid w s = record (wrote w s) { last_dbid = dbid }

select-wrote :
    (dbid : ℕ) (s : Saver)
    → s.has_sink ≡ true
    → length (select_bytes s.last_dbid dbid) ≤ s.room
    → save_select_db dbid s ≡ (none, wrote_in dbid (select_bytes s.last_dbid dbid) s)
unfolding save_select_db select_bytes
select-wrote dbid s h r = elim (Bool-cases (dbid == s.last_dbid)) [
  | inl e ↦
      let same : s.last_dbid ≡ dbid = ground (arith, e) in
      rw e (λ i. (none, record (sym (wrote-nil s) i) { last_dbid = same i }))
  | inr e ↦
      let bytes = len_bytes 10 dbid in
      let fits : suc (length bytes) ≤ s.room =
        subst (λ (w : Bytes). length w ≤ s.room) (other e) r in
      let enter : Save = (λ s'. (none, record s' { last_dbid = dbid })) in
      rw e (
        ap (λ o. Save.continue o.0 (save_len dbid >> enter) o.1)
          (write_raw-Writes (opcode_db_select ∷ []) s h (omega (arith, fits)))
        ∙ ap (λ o. Save.continue o.0 enter o.1)
            (save_len-Writes dbid (wrote (opcode_db_select ∷ []) s) h (omega (arith, fits)))
        ∙ ap (λ (t : Saver). (none, record t { last_dbid = dbid }))
            (wrote-append (opcode_db_select ∷ []) bytes s))
]
  where
    other :
        (dbid == s.last_dbid) ≡ false
        → select_bytes s.last_dbid dbid ≡ opcode_db_select ∷ len_bytes 10 dbid
    other e = rw e refl

abbrev pub entry_bytes : ℕ → Saved → Bytes
entry_bytes last e = select_bytes last e.dbid ++ (deadline_bytes e.expire_ms ++ body_bytes e)

pub save_entry-wrote :
    (e : Saved) (s : Saver)
    → IsEntry e
    → s.has_sink ≡ true
    → length (entry_bytes s.last_dbid e) ≤ s.room
    → save_entry e.key e.value e.expire_ms e.dbid s
      ≡ (none, wrote_in e.dbid (entry_bytes s.last_dbid e) s)
unfolding save_entry
save_entry-wrote e s (_, (_, (_, hv))) h r =
    let select = select_bytes s.last_dbid e.dbid in
    let body = deadline_bytes e.expire_ms ++ body_bytes e in
    ap
      (λ o.
        Save.continue o.0
          (do
            save_deadline e.expire_ms
            save_object_type_opcode e.value
            save_string (get_string_view e.key)
            save_object_data e.value)
          o.1)
      (select-wrote e.dbid s h (omega (arith, r, length-append select body)))
    ∙ body-Writes e hv (wrote_in e.dbid select s) h (omega (arith, r, length-append select body))
    ∙ ap (λ (t : Saver). (none, record t { last_dbid = e.dbid })) (wrote-append select body s)
