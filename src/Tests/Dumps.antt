-- ===== src/Tests/Dumps.antt =====
-- A dump of two entries: a number in database 0, and a list with a deadline in database 3.
use nano_redis.Prelude.{
  ℕ, true, none, some, List, [], ◌∷◌, ◌++◌, Bytes, codes, bytes_eq, length, if◌then◌else◌, ◌≡◌,
  refl, arith,
}
use nano_redis.Prelude.Int.{pos, negsuc}
use nano_redis.Util
use nano_redis.Util.{string2ll}
use nano_redis.NanoObj.{
  inline_str, int_tag, robj, list_obj, of_list, obj_list, from_string, from_key, set_string,
  set_string_key,
}
use nano_redis.NanoObj.Ops.{get_string_view, to_string, is_string}
use nano_redis.Rdb.Save.{new_serializer}
use nano_redis.Rdb.Load.{ok, Containers, Entry, load}
use nano_redis.Rdb.Pieces.{before}
use nano_redis.Rdb.Entries.{Saved}
use nano_redis.Rdb.Turns.{handler}
use nano_redis.Rdb.Values.{reloaded}
use nano_redis.Rdb.Dump.{save_dump, dump_bytes, handled, AllEntries}
use nano_redis.Rdb.Reload.{load-save_dump, key_lost}

abbrev assigned_to : List (Bytes × Bytes) → Bytes → Bytes → List (Bytes × Bytes)
assigned_to [] field value = (field, value) ∷ []
assigned_to ((f, v) ∷ l) field value =
    let more = assigned_to l field value in
    if bytes_eq f field then (f, value) ∷ l else (f, v) ∷ more

abbrev inserted_to : List Bytes → Bytes → List Bytes
inserted_to [] member = member ∷ []
inserted_to (s ∷ l) member =
    let more = inserted_to l member in if bytes_eq s member then s ∷ l else s ∷ more

abbrev containers : Containers
containers = record { assign = assigned_to; insert = inserted_to }

abbrev entries : List Saved
entries =
    record { dbid = 0; key = inline_str (codes "n"); value = int_tag (negsuc 4); expire_ms = pos 0 }
    ∷ record {
      dbid = 3;
      key = inline_str (codes "letters");
      value =
          robj obj_list 0 0 (list_obj (of_list (inline_str (codes "a") ∷ int_tag (pos 2) ∷ [])));
      expire_ms = pos 7000;
    }
    ∷ []

entries-AllEntries : AllEntries entries
unfolding get_string_view to_string is_string Util.to_string Util.to_digits
entries-AllEntries = (
  (omega arith, (omega arith, (omega arith, omega arith))),
  (
    (
      omega arith,
      (omega arith, (omega arith, (refl, (omega arith, (omega arith, (omega arith, tt)))))),
    ),
    tt,
  ),
)

-- The handler keeps what it is called with.
abbrev kept : Entry → List Entry → List Entry
kept e l = l ++ e ∷ []

abbrev room : ℕ
room = length (dump_bytes 1 4 1700000000000 entries)

load-save_dump_example :
    ((save_dump 1700000000000 entries (new_serializer true room 1 4)).0 ≡ none)
    × ((load containers
          (handler containers kept)
          []
          (before 1 0 (save_dump 1700000000000 entries (new_serializer true room 1 4)).1.out)).0
        ≡ ok (handled containers kept [] entries))
load-save_dump_example =
    load-save_dump containers kept 1 4 1700000000000 entries room 0 [] entries-AllEntries
      (omega arith) (omega arith)

abbrev numbered : Saved
numbered = record {
  dbid = 0;
  key = from_key (codes "42");
  value = int_tag (pos 1);
  expire_ms = pos 0;
}

numbered-AllEntries : AllEntries (numbered ∷ [])
unfolding get_string_view string2ll set_string_key set_string to_string Util.to_string
numbered-AllEntries = ((omega arith, (omega arith, (omega arith, omega arith))), tt)

abbrev numbered_room : ℕ
numbered_room = length (dump_bytes 1 4 1700000000000 (numbered ∷ []))

key_lost_example :
    ((save_dump 1700000000000 (numbered ∷ []) (new_serializer true numbered_room 1 4)).0 ≡ none)
    × ((got : Entry) × (got.key ≡ from_string [])
        × (got.dbid ≡ 0)
        × (got.value ≡ reloaded containers (int_tag (pos 1)))
        × ((load containers (handler containers kept) [] (
              before 1 0
                (save_dump 1700000000000
                  (numbered ∷ [])
                  (new_serializer true numbered_room 1 4)).1.out)).0
            ≡ ok (kept got [])))
key_lost_example =
    key_lost containers kept numbered_room 0 1 4 1700000000000 [] numbered (codes "42") (pos 42)
      numbered-AllEntries (omega arith) (omega arith) refl read_42 (omega arith)
  where
    read_42 : string2ll (codes "42") ≡ some (pos 42)
    read_42 = unfold string2ll in refl
