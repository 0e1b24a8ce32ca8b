-- ===== src/HashFamily/Handlers.antt =====
-- The handlers of src/command/hash_family.cc. The sums of `int` count arguments, and are taken for
-- numbers without a bound.
use nano_redis.Prelude.{
  ℕ, zero, suc, ◌*◌, ◌%◌, Option, none, some, List, [], ◌∷◌, ◌++◌, Bytes, codes, length, ◌==◌,
  if◌then◌else◌,
}
use nano_redis.Prelude.Int.{ℤ, pos, ◌+ℤ◌}
use nano_redis.Util
use nano_redis.NanoObj.{NanoObj}
use nano_redis.NanoObj.Ops.{is_hash, to_string}
use nano_redis.Resp.{
  make_error, make_integer, make_bulk_string, make_array, make_null_bulk_string, ok_response,
}
use nano_redis.Database.{Database, set, assign}
use nano_redis.Database.Interface.{Table}
use nano_redis.Database.Expiry.{find, del}
use nano_redis.ListFamily.{parse_long_long}
use nano_redis.ListFamily.Handlers.{Clock, Out, reply, no_pointer, wrong_number, count_of}
use nano_redis.StringFamily.{wrap64}
use nano_redis.StringFamily.Handlers.{bulk_or_null}
use nano_redis.SetFamily.{stoull, bulk_members}
use nano_redis.HashFamily.{
  Hash, Hashes, lookup, hash_of, with_hash, new_hash, stoll, field_at, assign_all, erase_fields,
  draw_fields,
}

abbrev pub one_if_found : Option Bytes → Bytes
one_if_found none = make_integer (pos 0)
one_if_found (some v) = make_integer (pos 1)

abbrev pub length_of : Option Bytes → Bytes
length_of none = make_integer (pos 0)
length_of (some v) = make_integer (pos (length v))

abbrev pub all_null : List NanoObj → Bytes
all_null [] = []
all_null (arg ∷ args) = make_null_bulk_string ++ all_null args

abbrev pub values_of : Hash → List NanoObj → Bytes
values_of h [] = []
values_of h (arg ∷ args) = bulk_or_null (lookup h (to_string arg)) ++ values_of h args

abbrev pub field_names : Hash → List Bytes
field_names [] = []
field_names (e ∷ h) = e.0 ∷ field_names h

abbrev pub all_values : Hash → List Bytes
all_values [] = []
all_values (e ∷ h) = e.1 ∷ all_values h

abbrev pub fields_and_values : Hash → List Bytes
fields_and_values [] = []
fields_and_values (e ∷ h) = e.0 ∷ e.1 ∷ fields_and_values h

-- The reply of HSCAN, by the cursor.
abbrev pub scan_reply : Hash → Option ℕ → Bytes
scan_reply h none = make_error (codes "invalid cursor")
scan_reply h (some zero) =
    make_array (pos 2)
    ++ (make_bulk_string (codes "0")
        ++ (make_array (pos (length (fields_and_values h))) ++ bulk_members (fields_and_values h)))
scan_reply h (some (suc n)) =
    make_array (pos 2) ++ (make_bulk_string (codes "0") ++ make_array (pos 0))

abbrev pub wrong_type : Bytes
wrong_type = make_error (codes "WRONGTYPE Operation against a key holding the wrong kind of value")

module _ {T : Table NanoObj} {E : Table ℤ} where
  abbrev pub with_hash_in :
      NanoObj → Option Hash → (NanoObj → Hash → Database T E → Out T E) → Database T E → Out T E
  with_hash_in obj none f d = (d, none)
  with_hash_in obj (some h) f d = f obj h d

  -- The test behind `Find`, with which the handlers begin.
  abbrev pub on_hash :
      Option NanoObj
      → (Database T E → Out T E)
      → (NanoObj → Hash → Database T E → Out T E)
      → Database T E
      → Out T E
  on_hash none other f d = other d
  on_hash (some obj) other f d = if is_hash obj then with_hash_in obj (hash_of obj) f d else other d

  abbrev pub found_hash :
      NanoObj
      → ℤ
      → Database T E
      → (Database T E → Out T E)
      → (NanoObj → Hash → Database T E → Out T E)
      → Out T E
  found_hash key now d other f = on_hash (find key now d).1 other f (find key now d).0

  -- The hash changed in place.
  abbrev pub write_hash : NanoObj → NanoObj → Hash → Database T E → Database T E
  write_hash key obj h d = assign key (with_hash obj h) d

  -- A new hash under the key; an object of another type is removed first.
  abbrev pub fresh_hash : NanoObj → ℤ → Option NanoObj → Database T E → Database T E
  fresh_hash key now none d = set key new_hash d
  fresh_hash key now (some obj) d = set key new_hash (del key now d).0

  -- A handler that replies and changes nothing.
  abbrev pub look : NanoObj → Clock → Bytes → (Hash → Bytes) → Database T E → Out T E
  look key clock other r d = found_hash key (clock 0) d (reply other) (λ obj h. reply (r h))

  unfoldable pub h_get : List NanoObj → Clock → Database T E → Out T E
  h_get (name ∷ key ∷ arg ∷ []) clock d =
      look key clock make_null_bulk_string (λ h. bulk_or_null (lookup h (to_string arg))) d
  h_get _ clock d = reply (wrong_number (codes "HGET")) d

  unfoldable pub h_m_get : List NanoObj → Clock → Database T E → Out T E
  h_m_get (name ∷ key ∷ arg ∷ args) clock d =
      let head = make_array (pos (length (arg ∷ args))) in
      look key clock (head ++ all_null (arg ∷ args)) (λ h. head ++ values_of h (arg ∷ args)) d
  h_m_get _ clock d = reply (wrong_number (codes "HMGET")) d

  unfoldable pub h_exists : List NanoObj → Clock → Database T E → Out T E
  h_exists (name ∷ key ∷ arg ∷ []) clock d =
      look key clock (make_integer (pos 0)) (λ h. one_if_found (lookup h (to_string arg))) d
  h_exists _ clock d = reply (wrong_number (codes "HEXISTS")) d

  unfoldable pub h_len : List NanoObj → Clock → Database T E → Out T E
  h_len (name ∷ key ∷ []) clock d =
      look key clock (make_integer (pos 0)) (λ h. make_integer (pos (length h))) d
  h_len _ clock d = reply (wrong_number (codes "HLEN")) d

  unfoldable pub h_keys : List NanoObj → Clock → Database T E → Out T E
  h_keys (name ∷ key ∷ []) clock d =
      look key clock (make_array (pos 0))
        (λ h. make_array (pos (length h)) ++ bulk_members (field_names h)) d
  h_keys _ clock d = reply (wrong_number (codes "HKEYS")) d

  unfoldable pub h_vals : List NanoObj → Clock → Database T E → Out T E
  h_vals (name ∷ key ∷ []) clock d =
      look key clock (make_array (pos 0))
        (λ h. make_array (pos (length h)) ++ bulk_members (all_values h)) d
  h_vals _ clock d = reply (wrong_number (codes "HVALS")) d

  unfoldable pub h_get_all : List NanoObj → Clock → Database T E → Out T E
  h_get_all (name ∷ key ∷ []) clock d =
      look key clock (make_array (pos 0))
        (λ h. make_array (pos (length h * 2)) ++ bulk_members (fields_and_values h)) d
  h_get_all _ clock d = reply (wrong_number (codes "HGETALL")) d

  unfoldable pub h_str_len : List NanoObj → Clock → Database T E → Out T E
  h_str_len (name ∷ key ∷ arg ∷ []) clock d =
      look key clock (make_integer (pos 0)) (λ h. length_of (lookup h (to_string arg))) d
  h_str_len _ clock d = reply (wrong_number (codes "HSTRLEN")) d

  unfoldable pub h_scan : List NanoObj → Clock → Database T E → Out T E
  h_scan (name ∷ key ∷ cursor ∷ args) clock d =
      look key clock wrong_type (λ h. scan_reply h (stoull (to_string cursor))) d
  h_scan _ clock d = reply (wrong_number (codes "HSCAN")) d

  module _ (c : Hashes) where
    abbrev pub assign_to : NanoObj → List NanoObj → NanoObj → Hash → Database T E → Out T E
    assign_to key args obj h d = reply ok_response (write_hash key obj (assign_all c args h) d)

    -- HSET and HMSET: the hash under the key, made where there is none, and the fields.
    abbrev pub set_fields : NanoObj → List NanoObj → Clock → Database T E → Out T E
    set_fields key args clock d =
        let (d', o) = find key (clock 0) d in
        on_hash o
          (λ e.
            found_hash key (clock 2) (fresh_hash key (clock 1) o e) no_pointer (assign_to key args))
          (assign_to key args) d'

    unfoldable pub h_set : List NanoObj → Clock → Database T E → Out T E
    h_set (name ∷ key ∷ field ∷ value ∷ args) clock d =
        if length args % 2 == 0
        then set_fields key (field ∷ value ∷ args) clock d
        else reply (wrong_number (codes "HSET")) d
    h_set _ clock d = reply (wrong_number (codes "HSET")) d

    unfoldable pub h_m_set : List NanoObj → Clock → Database T E → Out T E
    h_m_set (name ∷ key ∷ field ∷ value ∷ args) clock d =
        if length args % 2 == 0
        then set_fields key (field ∷ value ∷ args) clock d
        else reply (wrong_number (codes "HMSET")) d
    h_m_set _ clock d = reply (wrong_number (codes "HMSET")) d

    -- A hash that has become empty stays under the key.
    abbrev pub delete_from : NanoObj → List NanoObj → NanoObj → Hash → Database T E → Out T E
    delete_from key args obj h d =
        let (h', deleted) = erase_fields c args h in
        reply (make_integer (pos deleted)) (write_hash key obj h' d)

    unfoldable pub h_del : List NanoObj → Clock → Database T E → Out T E
    h_del (name ∷ key ∷ arg ∷ args) clock d =
        found_hash key (clock 0) d (reply (make_integer (pos 0))) (delete_from key (arg ∷ args))
    h_del _ clock d = reply (wrong_number (codes "HDEL")) d

    abbrev pub store_field : NanoObj → NanoObj → Hash → Bytes → ℤ → Database T E → Out T E
    store_field key obj h f n d =
        reply (make_bulk_string (Util.to_string n))
          (write_hash key obj (c.assign h f (Util.to_string n)) d)

    abbrev pub add_to_value :
        NanoObj → NanoObj → Hash → Bytes → ℤ → Option ℤ → Database T E → Out T E
    add_to_value key obj h f n none d = reply (make_error (codes "hash value is not an integer")) d
    add_to_value key obj h f n (some current) d = store_field key obj h f (wrap64 (current +ℤ n)) d

    abbrev pub add_to_field :
        NanoObj → NanoObj → Hash → Bytes → ℤ → Option Bytes → Database T E → Out T E
    add_to_field key obj h f n none d = store_field key obj h f n d
    add_to_field key obj h f n (some s) d = add_to_value key obj h f n (stoll s) d

    abbrev pub incr_field : NanoObj → Bytes → Option ℤ → NanoObj → Hash → Database T E → Out T E
    incr_field key f none obj h d =
        reply (make_error (codes "value is not an integer or out of range")) d
    incr_field key f (some n) obj h d = add_to_field key obj h f n (lookup h f) d

    unfoldable pub h_incr_by : List NanoObj → Clock → Database T E → Out T E
    h_incr_by (name ∷ key ∷ field ∷ by ∷ []) clock d =
        found_hash key (clock 0) d (reply wrong_type)
          (incr_field key (to_string field) (parse_long_long (to_string by)))
    h_incr_by _ clock d = reply (wrong_number (codes "HINCRBY")) d

    -- The fields that are shown are erased from the hash.
    abbrev pub take_fields : NanoObj → (ℕ → ℕ) → Option ℕ → NanoObj → Hash → Database T E → Out T E
    take_fields key rand none obj h d =
        reply (make_error (codes "count is not a valid positive integer")) d
    take_fields key rand (some count) obj h d =
        let (shown, left) = draw_fields c count rand h in
        reply (make_array (pos count) ++ bulk_members shown) (write_hash key obj left d)

    -- What HRANDFIELD does to a hash, by the arguments behind the key.
    abbrev pub random_fields :
        NanoObj → (ℕ → ℕ) → List NanoObj → NanoObj → Hash → Database T E → Out T E
    random_fields key rand args obj [] d = reply make_null_bulk_string d
    random_fields key rand [] obj (e ∷ h) d =
        reply (make_bulk_string (field_at (e ∷ h) (rand 0 % length (e ∷ h)))) d
    random_fields key rand (arg ∷ args) obj (e ∷ h) d =
        take_fields key rand (count_of (arg ∷ args)) obj (e ∷ h) d

    abbrev pub random_from : (ℕ → ℕ) → NanoObj → List NanoObj → Clock → Database T E → Out T E
    random_from rand key args clock d =
        found_hash key (clock 0) d (reply make_null_bulk_string) (random_fields key rand args)

    unfoldable pub h_rand_field : (ℕ → ℕ) → List NanoObj → Clock → Database T E → Out T E
    h_rand_field rand (name ∷ key ∷ []) clock d = random_from rand key [] clock d
    h_rand_field rand (name ∷ key ∷ count ∷ []) clock d = random_from rand key (count ∷ []) clock d
    h_rand_field rand _ clock d = reply (wrong_number (codes "HRANDFIELD")) d
