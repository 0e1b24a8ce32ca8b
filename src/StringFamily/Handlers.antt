-- ===== src/StringFamily/Handlers.antt =====
-- The handlers of src/command/string_family.cc that work on one key.
use nano_redis.Prelude.{
  ◌⊎◌, inl, inr, Option, none, some, List, [], ◌∷◌, ◌++◌, Bytes, codes, length, ℕ, ◌==◌,
  if◌then◌else◌,
}
use nano_redis.Prelude.Int.{ℤ, pos, negsuc, ◌+ℤ◌, ◌-ℤ◌}
use nano_redis.Util.{equals_ignore_case}
use nano_redis.NanoObj.{NanoObj, from_key, from_int}
use nano_redis.NanoObj.Ops.{to_string, get_string_view, copy_from}
use nano_redis.Resp.{make_error, make_integer, make_bulk_string, make_null_bulk_string, ok_response}
use nano_redis.Database.{Database, set}
use nano_redis.Database.Interface.{Table}
use nano_redis.Database.Expiry.{get, expire, persist}
use nano_redis.ListFamily.Handlers.{Clock, Out, reply}
use nano_redis.StringFamily.{
  parse_int, wrap64, to_ms, invalid_integer, invalid_expire_time, wrong_number,
}

-- The time to live of SET: the number has to be positive, and then the option one of two.
unfoldable pub ttl_of : NanoObj → Option ℤ → Bytes ⊎ ℕ
ttl_of option none = inl invalid_expire_time
ttl_of option (some (negsuc n)) = inl invalid_expire_time
ttl_of option (some (pos n)) =
    if n == 0
    then inl invalid_expire_time
    else if equals_ignore_case (get_string_view option) (codes "EX")
    then inr (to_ms n)
    else if equals_ignore_case (get_string_view option) (codes "PX")
    then inr n
    else inl (make_error (codes "syntax error"))

abbrev pub bulk_or_null : Option Bytes → Bytes
bulk_or_null none = make_null_bulk_string
bulk_or_null (some s) = make_bulk_string s

abbrev pub or_empty : Option Bytes → Bytes
or_empty none = []
or_empty (some s) = s

module _ {T : Table NanoObj} {E : Table ℤ} where
  abbrev pub set_forever : NanoObj → NanoObj → Clock → Database T E → Out T E
  set_forever key value clock d =
      reply ok_response (persist key (clock 0) (set key (copy_from value) d)).0

  abbrev pub set_for : NanoObj → NanoObj → Clock → Bytes ⊎ ℕ → Database T E → Out T E
  set_for key value clock (inl error) d = reply error d
  set_for key value clock (inr ms) d =
      reply ok_response (expire key (pos ms) (clock 0) (set key (copy_from value) d)).0

  unfoldable pub set_command : List NanoObj → Clock → Database T E → Out T E
  set_command (name ∷ key ∷ value ∷ []) clock d = set_forever key value clock d
  set_command (name ∷ key ∷ value ∷ option ∷ time ∷ []) clock d =
      set_for key value clock (ttl_of option (parse_int (to_string time))) d
  set_command _ clock d = reply (wrong_number (codes "SET")) d

  unfoldable pub get_command : List NanoObj → Clock → Database T E → Out T E
  get_command (name ∷ key ∷ []) clock d =
      let (d', result) = get key (clock 0) d in reply (bulk_or_null result) d'
  get_command _ clock d = reply (wrong_number (codes "GET")) d

  -- The new number, stored and replied.
  abbrev pub store_number : NanoObj → ℤ → Database T E → Out T E
  store_number key n d = reply (make_integer n) (set key (from_int n) d)

  abbrev pub count_from : NanoObj → (ℤ → ℤ) → Option ℤ → Database T E → Out T E
  count_from key f none d = reply invalid_integer d
  count_from key f (some n) d = store_number key (f n) d

  abbrev pub count_on : NanoObj → (ℤ → ℤ) → ℤ → Option Bytes → Database T E → Out T E
  count_on key f start none d = store_number key start d
  count_on key f start (some s) d = count_from key f (parse_int s) d

  -- What the four counters share: `f` of the number under the key, or `start` where there is none.
  abbrev pub counted : NanoObj → (ℤ → ℤ) → ℤ → Clock → Database T E → Out T E
  counted key f start clock d =
      let (d', current) = get key (clock 0) d in count_on key f start current d'

  unfoldable pub incr : List NanoObj → Clock → Database T E → Out T E
  incr (name ∷ key ∷ []) clock d = counted key (λ n. wrap64 (n +ℤ pos 1)) (pos 1) clock d
  incr _ clock d = reply (wrong_number (codes "INCR")) d

  unfoldable pub decr : List NanoObj → Clock → Database T E → Out T E
  decr (name ∷ key ∷ []) clock d = counted key (λ n. wrap64 (n -ℤ pos 1)) (negsuc 0) clock d
  decr _ clock d = reply (wrong_number (codes "DECR")) d

  abbrev pub by_number : Option ℤ → (ℤ → Database T E → Out T E) → Database T E → Out T E
  by_number none f d = reply invalid_integer d
  by_number (some n) f d = f n d

  unfoldable pub incr_by : List NanoObj → Clock → Database T E → Out T E
  incr_by (name ∷ key ∷ by ∷ []) clock d =
      by_number (parse_int (to_string by)) (λ n. counted key (λ m. wrap64 (m +ℤ n)) n clock) d
  incr_by _ clock d = reply (wrong_number (codes "INCRBY")) d

  unfoldable pub decr_by : List NanoObj → Clock → Database T E → Out T E
  decr_by (name ∷ key ∷ by ∷ []) clock d =
      by_number (parse_int (to_string by))
        (λ n. counted key (λ m. wrap64 (m -ℤ n)) (wrap64 (pos 0 -ℤ n)) clock) d
  decr_by _ clock d = reply (wrong_number (codes "DECRBY")) d

  -- The new text, stored, and its length.
  abbrev pub store_text : NanoObj → Bytes → Database T E → Out T E
  store_text key s d = reply (make_integer (pos (length s))) (set key (from_key s) d)

  unfoldable pub append : List NanoObj → Clock → Database T E → Out T E
  append (name ∷ key ∷ value ∷ []) clock d =
      let (d', current) = get key (clock 0) d in
      store_text key (or_empty current ++ to_string value) d'
  append _ clock d = reply (wrong_number (codes "APPEND")) d

  unfoldable pub str_len : List NanoObj → Clock → Database T E → Out T E
  str_len (name ∷ key ∷ []) clock d =
      let (d', val) = get key (clock 0) d in reply (make_integer (pos (length (or_empty val)))) d'
  str_len _ clock d = reply (wrong_number (codes "STRLEN")) d
