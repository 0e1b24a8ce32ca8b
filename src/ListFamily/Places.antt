-- ===== src/ListFamily/Places.antt =====
-- The handlers of src/command/list_family.cc that work on places in the list: LINDEX, LSET, LRANGE,
-- LTRIM, LREM and LINSERT.
use nano_redis.Prelude.{
  ℕ, zero, suc, ◌+◌, ◌-◌, Bool, true, false, not, ◌||◌, Option, none, some, List, [], ◌∷◌, ◌++◌,
  Bytes, codes, bytes_eq, length, get_elem?, leb, ltb, ◌==◌, if◌then◌else◌,
}
use nano_redis.Prelude
use nano_redis.Prelude.Int.{ℤ, pos, negsuc}
use nano_redis.NanoObj.{NanoObj, from_key}
use nano_redis.NanoObj.Ops.{to_string, copy_from}
use nano_redis.Resp.{
  make_error, make_integer, make_bulk_string, make_array, null_bulk_response, ok_response,
}
use nano_redis.Database.{Database}
use nano_redis.Database.Interface.{Table}
use nano_redis.Database.Expiry.{del}
use nano_redis.ListFamily.{parse_long_long, not_integer}
use nano_redis.ListFamily.Deque.{position, range_of, slice, remove, insert_at}
use nano_redis.ListFamily.Handlers.{Clock, Out, wrong_number, reply, found_list, write, keep}

abbrev pub bulk_replies : List NanoObj → Bytes
bulk_replies [] = []
bulk_replies (o ∷ list) = make_bulk_string (to_string o) ++ bulk_replies list

abbrev pub shown : Option NanoObj → Bytes
shown none = null_bulk_response
shown (some o) = make_bulk_string (to_string o)

abbrev pub element : Option ℕ → List NanoObj → Option NanoObj
element none list = none
element (some n) list = get_elem? list n

abbrev pub range_reply : List NanoObj → Option (ℕ × ℕ) → Bytes
range_reply list none = make_array (pos 0)
range_reply list (some (start, stop)) =
    make_array (pos (stop + 1 - start)) ++ bulk_replies (slice start stop list)

module _ {T : Table NanoObj} {E : Table ℤ} where
  -- What follows on one number, or on two, that the arguments spell.
  abbrev pub with_number : Option ℤ → (ℤ → Database T E → Out T E) → Database T E → Out T E
  with_number none f d = reply not_integer d
  with_number (some z) f d = f z d

  abbrev pub with_numbers :
      Option ℤ → Option ℤ → (ℤ → ℤ → Database T E → Out T E) → Database T E → Out T E
  with_numbers (some y) (some z) f d = f y z d
  with_numbers _ _ f d = reply not_integer d

  unfoldable pub l_index : List NanoObj → Clock → Database T E → Out T E
  unfolding parse_long_long position
  l_index (name ∷ key ∷ index ∷ []) clock d =
      found_list key clock d (reply null_bulk_response) (λ obj list.
        with_number (parse_long_long (to_string index))
          (λ i. reply (shown (element (position i (length list)) list))))
  l_index _ clock d = reply (wrong_number (codes "LINDEX")) d

  abbrev set_element :
      NanoObj → NanoObj → NanoObj → List NanoObj → Option ℕ → Database T E → Out T E
  set_element key value obj list none d = reply (make_error (codes "index out of range")) d
  set_element key value obj list (some n) d =
      reply ok_response (write key obj (Prelude.set list n (copy_from value)) d)

  unfoldable pub l_set : List NanoObj → Clock → Database T E → Out T E
  unfolding parse_long_long position
  l_set (name ∷ key ∷ index ∷ value ∷ []) clock d =
      found_list key clock d (reply (make_error (codes "no such key"))) (λ obj list.
        with_number (parse_long_long (to_string index))
          (λ i. set_element key value obj list (position i (length list))))
  l_set _ clock d = reply (wrong_number (codes "LSET")) d

  unfoldable pub l_range : List NanoObj → Clock → Database T E → Out T E
  unfolding parse_long_long range_of
  l_range (name ∷ key ∷ start ∷ stop ∷ []) clock d =
      found_list key clock d (reply (make_array (pos 0))) (λ obj list.
        with_numbers (parse_long_long (to_string start)) (parse_long_long (to_string stop))
          (λ i j. reply (range_reply list (range_of i j (length list)))))
  l_range _ clock d = reply (wrong_number (codes "LRANGE")) d

  abbrev pub trimmed :
      NanoObj → Clock → NanoObj → List NanoObj → Option (ℕ × ℕ) → Database T E → Out T E
  trimmed key clock obj list none d = reply ok_response (del key (clock 1) d).0
  trimmed key clock obj list (some (start, stop)) d =
      reply ok_response (write key obj (slice start stop list) d)

  unfoldable pub l_trim : List NanoObj → Clock → Database T E → Out T E
  unfolding parse_long_long range_of
  l_trim (name ∷ key ∷ start ∷ stop ∷ []) clock d =
      found_list key clock d (reply ok_response) (λ obj list.
        with_numbers (parse_long_long (to_string start)) (parse_long_long (to_string stop))
          (λ i j. trimmed key clock obj list (range_of i j (length list))))
  l_trim _ clock d = reply (wrong_number (codes "LTRIM")) d

  unfoldable pub l_rem : List NanoObj → Clock → Database T E → Out T E
  unfolding parse_long_long
  l_rem (name ∷ key ∷ count ∷ value ∷ []) clock d =
      found_list key clock d (reply (make_integer (pos 0))) (λ obj list.
        with_number (parse_long_long (to_string count)) (λ n d'.
          let (kept, removed) = remove n (to_string value) list in
          reply (make_integer (pos removed)) (keep key clock obj kept d')))
  l_rem _ clock d = reply (wrong_number (codes "LREM")) d

  abbrev inserted : NanoObj → NanoObj → Option (List NanoObj) → Database T E → Out T E
  inserted key obj none d = reply (make_integer (negsuc 0)) d
  inserted key obj (some list) d = reply (make_integer (pos (length list))) (write key obj list d)

  unfoldable pub l_insert : List NanoObj → Clock → Database T E → Out T E
  unfolding insert_at
  l_insert (name ∷ key ∷ where_ ∷ pivot ∷ value ∷ []) clock d =
      found_list key clock d (reply (make_integer (pos 0))) (λ obj list d'.
        let before = bytes_eq (to_string where_) (codes "BEFORE") in
        if before || bytes_eq (to_string where_) (codes "AFTER")
        then inserted key obj (insert_at before (to_string pivot) (from_key (to_string value)) list)
            d'
        else reply (make_error (codes "syntax error")) d')
  l_insert _ clock d = reply (wrong_number (codes "LINSERT")) d
