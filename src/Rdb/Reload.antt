-- ===== src/Rdb/Reload.antt =====
-- A dump read back: SAVE of src/command/server_family.cc, then `Load` of src/core/rdb_loader.cc.
use nano_redis.Prelude.{
  ℕ, leb, suc, ◌-◌, ◌^◌, ◌<◌, ◌≤◌, true, Bool-cases, inl, inr, none, some, List, [], ◌∷◌, ◌++◌,
  Bytes, length, length-append, append-nil, append_assoc, ◌≡◌, refl, sym, ap, ◌∙◌, arith,
}
use nano_redis.Prelude.Int.{ℤ}
use nano_redis.Rdb.{build_crc32}
use nano_redis.Rdb.Checksum.{build_crc32-append, build_crc32-fits}
use nano_redis.Rdb.Save.{new_serializer}
use nano_redis.Rdb.Load
use nano_redis.Rdb.Load.{
  Loader, Load, Result, ok, Containers, Entry, Cursor, load_header, load_loop, load,
}
use nano_redis.Rdb.Pieces.{before}
use nano_redis.Rdb.Entries.{Saved, no_db}
use nano_redis.Rdb.Turns.{handler, seen, deadline_seen}
use nano_redis.Rdb.Frame.{header_bytes, footer_bytes, load_header-Reads, footer-loads}
use nano_redis.NanoObj.{
  NanoObj, inline_str, int_tag, small_str, inline_len, robj, null_tag, from_string, from_key,
  set_string, set_string_key,
}
use nano_redis.NanoObj.Ops.{get_string_view, is_string}
use nano_redis.NanoObj.RoundTrip.{from_key-cases, view-from_string}
use nano_redis.Util.{string2ll}
use nano_redis.Rdb.Values.{reloaded}
use nano_redis.Rdb.Dump.{
  save_dump, AllEntries, entries_bytes, dump_bytes, rounds, rounds-below, rounds-add, cursor_after,
  handled, entries-Steps, save_dump-wrote,
}

module _ (c : Containers) {S : Type 0} (h : Entry → S → S) (shard shards ts : ℕ)
    (l : List Saved) where
  load-dump_bytes :
      (s : S) (crc : ℕ)
      → AllEntries l
      → shard < 2 ^ 32
      → (load c (handler c h) s (before shard crc (dump_bytes shard shards ts l))).0
        ≡ ok (handled c h s l)
  unfolding load
  load-dump_bytes s crc v small =
      ap
        (λ t.
          (Load.continue (load_header (before shard 0 t)).0 go
            (load_header (before shard 0 t)).1).0)
        (append_assoc head body foot)
      ∙ ap (λ o. (Load.continue o.0 go o.1).0)
          (load_header-Reads shard 0 shards ts (body ++ foot) small)
      ∙ ap
          (λ (n : ℕ).
            (load_loop c (handler c h) n start s
              (before shard (build_crc32 0 head) (body ++ foot))).0)
          enough
      ∙ ap (λ o. o.0)
          (entries-Steps c h (suc spare) no_db l start s v (inr refl) refl shard
            (build_crc32 0 head) foot)
      ∙ ap (λ (d : ℕ). (finish (before shard d foot)).0) (build_crc32-append 0 head body)
      ∙ ap (λ (w : Bytes). (finish (before shard (build_crc32 0 (head ++ body)) w)).0)
          (sym (append-nil foot))
      ∙ footer-loads c (handler c h) spare shard (build_crc32 0 (head ++ body))
          (cursor_after start l) (handled c h s l) []
          (build_crc32-fits 0 (head ++ body) (omega arith))
    where
      head : Bytes
      head = header_bytes shard shards ts

      body : Bytes
      body = entries_bytes no_db l

      foot : Bytes
      foot = footer_bytes (build_crc32 0 (head ++ body))

      start : Cursor
      start = record { dbid = 0; expire = none }

      total : ℕ
      total = length (dump_bytes shard shards ts l)

      go : Unit {0} → Load S
      go header = load_loop c (handler c h) (suc total) start s

      spare : ℕ
      spare = total - rounds no_db l 0

      finish : Load S
      finish = load_loop c (handler c h) (suc spare) (cursor_after start l) (handled c h s l)

      enough : suc total ≡ rounds no_db l (suc spare)
      enough = omega (
        arith,
        rounds-add no_db (suc spare) l,
        rounds-below no_db l,
        length-append (head ++ body) foot,
        length-append head body,
      )

  -- For entries that `SaveEntry` can write (a value that is a number of 64 bits, a text or a
  -- container of the type its object says; a database below 2^32 - 1; lengths and the deadline in
  -- 64 bits), a shard number below 2^32 and a sink with room for the dump: the calls of SAVE
  -- succeed, and `Load` of what they wrote, by a loader that expects that shard and with a handler
  -- that does not fail, succeeds and has called the handler once for each entry, in order, with its
  -- database, what `GetStringView` gives of its key (nothing for a key stored as a number), its
  -- value as the loader rebuilds it, and its deadline, 0 where none was positive.
  pub load-save_dump :
      (room crc : ℕ) (s : S)
      → AllEntries l
      → shard < 2 ^ 32
      → length (dump_bytes shard shards ts l) ≤ room
      → ((save_dump ts l (new_serializer true room shard shards)).0 ≡ none)
        × ((load c
              (handler c h)
              s
              (before shard crc (save_dump ts l (new_serializer true room shard shards)).1.out)).0
            ≡ ok (handled c h s l))
  load-save_dump room crc s v small r =
      let wrote = save_dump-wrote room shard shards ts l v r in
      (
        ap (λ o. o.0) wrote,
        ap (λ o. (load c (handler c h) s (before shard crc o.1.out)).0) wrote
            ∙ load-dump_bytes s crc v small,
      )

module _ (c : Containers) {S : Type 0} (h : Entry → S → S) where
  key_seen :
      (e : Saved) (key : Bytes) (z : ℤ) (ms : ℤ)
      → e.key ≡ from_key key
      → string2ll key ≡ some z
      → length key ≤ 20
      → (seen c h e ms).key ≡ from_string []
  unfolding set_string_key get_string_view
  key_seen e key z ms k p small =
      let number : from_key key ≡ int_tag z = ground (arith, p, small) in
      ap (λ o. from_string (get_string_view o)) (k ∙ number)

  -- SAVE of one entry whose key `FromKey` has stored as a number (a text of up to 20 bytes that
  -- `String2ll` reads), under the conditions for a dump that is read back, and then `Load` of what
  -- was written: both succeed, and the handler has got the entry's database and its value as the
  -- loader rebuilds it, under the empty text as the key.
  pub key_lost :
      (room crc shard shards ts : ℕ) (s : S) (e : Saved) (key : Bytes) (z : ℤ)
      → AllEntries (e ∷ [])
      → shard < 2 ^ 32
      → length (dump_bytes shard shards ts (e ∷ [])) ≤ room
      → e.key ≡ from_key key
      → string2ll key ≡ some z
      → length key ≤ 20
      → ((save_dump ts (e ∷ []) (new_serializer true room shard shards)).0 ≡ none)
        × ((got : Entry) × (got.key ≡ from_string [])
            × (got.dbid ≡ e.dbid)
            × (got.value ≡ reloaded c e.value)
            × ((load c (handler c h) s (
                  before shard crc
                    (save_dump ts (e ∷ []) (new_serializer true room shard shards)).1.out)).0
                ≡ ok (h got s)))
  key_lost room crc shard shards ts s e key z v small r k p short =
      let both = load-save_dump c h shard shards ts (e ∷ []) room crc s v small r in
      (
        both.0,
        (
          seen c h e (deadline_seen c h e.expire_ms),
          key_seen e key z (deadline_seen c h e.expire_ms) k p short,
          refl,
          refl,
          both.1,
        ),
      )

reloaded-text :
    (c : Containers) (o : NanoObj)
    → is_string o ≡ true
    → reloaded c o ≡ from_string (get_string_view o)
unfolding reloaded is_string
reloaded-text c (inline_str s) h = refl
reloaded-text c (int_tag z) h = ground arith
reloaded-text c (small_str n p b) h = refl
reloaded-text c (robj t e n i) h = ground arith
reloaded-text c null_tag h = ground arith

from_string-is_string : (s : Bytes) → is_string (from_string s) ≡ true
unfolding is_string set_string
from_string-is_string s = elim (Bool-cases (leb (length s) inline_len)) [
  | inl h ↦ rw h refl
  | inr h ↦ rw h refl
]

-- A value made by `FromKey` of a text of less than 64 KiB, a number or a text, is rebuilt by the
-- loader as the same object.
pub reloaded-from_key :
    (c : Containers) (s : Bytes) → length s < 2 ^ 16 → reloaded c (from_key s) ≡ from_key s
unfolding reloaded
reloaded-from_key c s h = elim (from_key-cases s) [
  | inl (z, p, e) ↦ rw e refl
  | inr e ↦ rw e (
      reloaded-text c (from_string s) (from_string-is_string s)
      ∙ ap (λ (t : Bytes). from_string t) (view-from_string s h))
]
