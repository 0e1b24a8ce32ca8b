-- ===== src/StringFamily/Places.antt =====
-- The handlers of src/command/string_family.cc on parts of a string, on types and on deadlines.
use nano_redis.Prelude.{
  ℕ, ◌+◌, ◌%◌, ◌^◌, Bool, true, false, Option, none, some, List, [], ◌∷◌, Bytes, codes, length, ltb,
  ◌==◌, if◌then◌else◌,
}
use Prim.Native.Nat.{max}
use nano_redis.Prelude.Int.{ℤ, pos, negsuc, ltb_ℤ, ◌+ℤ◌, ◌-ℤ◌}
use nano_redis.NanoObj.{NanoObj, obj_string, obj_hash, obj_set, obj_list, obj_zset}
use nano_redis.NanoObj.Ops.{to_string, get_type}
use nano_redis.Resp.{make_integer, make_bulk_string, make_simple_string}
use nano_redis.Database.{Database}
use nano_redis.Database.Interface.{Table}
use nano_redis.Database.Expiry.{find, get, expire, persist, ttl}
use nano_redis.ListFamily.Handlers.{Clock, Out, reply}
use nano_redis.StringFamily.{
  parse_int, adjust_index, to_size, substr, resize, overwrite, to_ms, wrong_number,
}
use nano_redis.StringFamily.Handlers.{or_empty, store_text, by_number}

unfoldable pub type_name : ℕ → Bytes
type_name t =
    if t == obj_string
    then codes "string"
    else if t == obj_hash
    then codes "hash"
    else if t == obj_set
    then codes "set"
    else if t == obj_list
    then codes "list"
    else if t == obj_zset
    then codes "zset"
    else codes "none"

abbrev pub type_of : Option NanoObj → Bytes
type_of none = codes "none"
type_of (some value) = type_name (get_type value)

-- The part of a string between two adjusted indices.
abbrev pub cut_at : Bytes → ℤ → ℤ → Option Bytes
cut_at s first last =
    if ltb_ℤ last first
    then some []
    else substr s (to_size first) (to_size (last -ℤ first +ℤ pos 1))

unfoldable pub cut : Bytes → ℤ → ℤ → Option Bytes
cut s start end = cut_at s (adjust_index start (pos (length s))) (adjust_index end (pos (length s)))

unfoldable pub range_of : Option Bytes → ℤ → ℤ → Option Bytes
range_of none start end = some []
range_of (some s) start end = cut s start end

abbrev pub bulk_of : Option Bytes → Option Bytes
bulk_of none = none
bulk_of (some s) = some (make_bulk_string s)

-- A negative offset is taken for zero.
abbrev pub offset_of : ℤ → ℕ
offset_of (pos n) = n
offset_of (negsuc n) = 0

-- `none` where the string would become longer than one can be.
unfoldable pub written : ℕ → Bytes → ℕ → Bytes → Option Bytes
written capacity s offset value =
    let size = max (length s) ((offset + length value) % 2 ^ 64) in
    if ltb capacity size then none else some (overwrite (resize s size) offset value)

abbrev pub ttl_ms : ℤ → ℤ
ttl_ms (negsuc n) = pos 0
ttl_ms (pos n) = pos (to_ms n)

abbrev pub one_or_zero : Bool → Bytes
one_or_zero true = make_integer (pos 1)
one_or_zero false = make_integer (pos 0)

module _ {T : Table NanoObj} {E : Table ℤ} where
  unfoldable pub type_command : List NanoObj → Clock → Database T E → Out T E
  type_command (name ∷ key ∷ []) clock d =
      let (d', value) = find key (clock 0) d in reply (make_simple_string (type_of value)) d'
  type_command _ clock d = reply (wrong_number (codes "TYPE")) d

  -- Both numbers are read before one of them is refused.
  abbrev pub get_between : NanoObj → Clock → ℤ → ℤ → Database T E → Out T E
  get_between key clock start end d =
      let (d', val) = get key (clock 0) d in (d', bulk_of (range_of val start end))

  unfoldable pub get_range : List NanoObj → Clock → Database T E → Out T E
  get_range (name ∷ key ∷ start ∷ end ∷ []) clock d =
      by_number (parse_int (to_string start))
        (λ first. by_number (parse_int (to_string end)) (λ last. get_between key clock first last))
        d
  get_range _ clock d = reply (wrong_number (codes "GETRANGE")) d

  abbrev pub store_if : NanoObj → Option Bytes → Database T E → Out T E
  store_if key none d = (d, none)
  store_if key (some s) d = store_text key s d

  -- `capacity` is the length up to which the library can make a string.
  unfoldable pub set_range : ℕ → List NanoObj → Clock → Database T E → Out T E
  set_range capacity (name ∷ key ∷ at ∷ value ∷ []) clock d =
      by_number (parse_int (to_string at))
        (λ offset d.
          let (d', current) = get key (clock 0) d in
          store_if key (written capacity (or_empty current) (offset_of offset) (to_string value))
            d')
        d
  set_range capacity _ clock d = reply (wrong_number (codes "SETRANGE")) d

  unfoldable pub expire_command : List NanoObj → Clock → Database T E → Out T E
  expire_command (name ∷ key ∷ time ∷ []) clock d =
      by_number (parse_int (to_string time))
        (λ seconds d.
          let (d', done) = expire key (ttl_ms seconds) (clock 0) d in reply (one_or_zero done) d')
        d
  expire_command _ clock d = reply (wrong_number (codes "EXPIRE")) d

  unfoldable pub ttl_command : List NanoObj → Clock → Database T E → Out T E
  ttl_command (name ∷ key ∷ []) clock d =
      let (d', left) = ttl key (clock 0) d in reply (make_integer left) d'
  ttl_command _ clock d = reply (wrong_number (codes "TTL")) d

  unfoldable pub persist_command : List NanoObj → Clock → Database T E → Out T E
  persist_command (name ∷ key ∷ []) clock d =
      let (d', done) = persist key (clock 0) d in reply (one_or_zero done) d'
  persist_command _ clock d = reply (wrong_number (codes "PERSIST")) d
