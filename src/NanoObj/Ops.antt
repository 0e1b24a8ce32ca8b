-- ===== src/NanoObj/Ops.antt =====
-- The queries, conversions, the string buffer, copying and comparison of src/core/nano_obj.cc.
use nano_redis.Prelude.{
  ℕ, ◌%◌, ◌^◌, min, Bool, true, false, ◌&&◌, ◌||◌, Option, none, some, [], ◌∷◌, ◌++◌, Bytes, length,
  take, bytes_eq, ltb, leb, ◌==◌, if◌then◌else◌,
}
use nano_redis.Prelude.Int.{ℤ, pos, eqb_ℤ}
use nano_redis.Util
use nano_redis.Util.{string2ll}
use nano_redis.NanoObj.{
  NanoObj, inline_str, int_tag, small_str, robj, null_tag, Inner, null_ptr, inline_len, obj_string,
  obj_hash, obj_set, obj_list, obj_zset, encoding_raw, encoding_int, encoding_embstr,
}

unfoldable pub get_tag : NanoObj → ℕ
get_tag (inline_str data') = length data'
get_tag (int_tag z) = 15
get_tag (small_str n p b) = 16
get_tag (robj t e n i) = 17
get_tag null_tag = 31

unfoldable pub is_null : NanoObj → Bool
is_null null_tag = true
is_null _ = false

unfoldable pub is_int : NanoObj → Bool
is_int (int_tag z) = true
is_int _ = false

unfoldable pub is_string : NanoObj → Bool
is_string (inline_str s) = true
is_string (small_str n p b) = true
is_string _ = false

abbrev is_robj_of : ℕ → NanoObj → Bool
is_robj_of type (robj t e n i) = t == type
is_robj_of type _ = false

unfoldable pub is_hash : NanoObj → Bool
is_hash = is_robj_of obj_hash

unfoldable pub is_set : NanoObj → Bool
is_set = is_robj_of obj_set

unfoldable pub is_list : NanoObj → Bool
is_list = is_robj_of obj_list

unfoldable pub is_zset : NanoObj → Bool
is_zset = is_robj_of obj_zset

-- `GetStringView` and `GetRawStringView`; the view of a small string is `length` bytes of the buffer.
unfoldable pub get_string_view : NanoObj → Bytes
get_string_view (inline_str s) = s
get_string_view (small_str n p b) = take n b
get_string_view _ = []

unfoldable pub try_to_string : NanoObj → Option Bytes
try_to_string (inline_str s) = some s
try_to_string _ = none

unfoldable pub try_to_int : NanoObj → Option ℤ
try_to_int (int_tag z) = some z
try_to_int _ = none

unfoldable pub to_string : NanoObj → Bytes
to_string (inline_str s) = s
to_string (int_tag z) = Util.to_string z
to_string (small_str n p b) = take n b
to_string _ = []

unfoldable pub as_int : NanoObj → ℤ
as_int (int_tag z) = z
as_int _ = pos 0

unfoldable pub get_type : NanoObj → ℕ
get_type (robj t e n i) = t
get_type _ = obj_string

unfoldable pub get_encoding : NanoObj → ℕ
get_encoding (inline_str s) = encoding_embstr
get_encoding (int_tag z) = encoding_int
get_encoding (small_str n p b) = encoding_raw
get_encoding (robj t e n i) = e
get_encoding null_tag = encoding_raw

unfoldable pub size : NanoObj → ℕ
size (inline_str s) = length s
size (int_tag z) = length (Util.to_string z)
size (small_str n p b) = n
size (robj t e n i) = n
size null_tag = 0

unfoldable pub get_obj : NanoObj → Inner
get_obj (robj t e n i) = i
get_obj _ = null_ptr

unfoldable pub set_obj : NanoObj → Inner → NanoObj
set_obj (robj t e n i) j = robj t e n j
set_obj o j = o

-- `PrepareStringBuffer`: the buffer holds what the caller has written so far, at first nothing.
unfoldable pub prepare_string_buffer : ℕ → NanoObj
prepare_string_buffer len =
    if leb len inline_len then inline_str [] else small_str (len % 2 ^ 16) (0 ∷ 0 ∷ 0 ∷ 0 ∷ []) []

-- The caller's `memcpy(dst + total, …)`, behind what it has written already.
unfoldable pub write_buffer : NanoObj → Bytes → NanoObj
write_buffer (inline_str s) chunk = inline_str (s ++ chunk)
write_buffer (small_str n p b) chunk = small_str n p (b ++ chunk)
write_buffer o chunk = o

unfoldable pub finalize_prepared_string : NanoObj → NanoObj
finalize_prepared_string (small_str n p b) =
    small_str n (if ltb 0 (min n 4) then take (min n 4) b else p) b
finalize_prepared_string o = o

unfoldable pub maybe_convert_to_int : NanoObj → NanoObj × Bool
unfolding get_string_view
maybe_convert_to_int o =
    let sv = get_string_view o in
    if length sv == 0 || ltb 20 (length sv)
    then (o, false)
    else elim (string2ll sv) [ none ↦ (o, false) | some z ↦ (int_tag z, true) ]

-- `CopyFrom`: a small string gets a buffer of `length` bytes. The copy of a container has no inner
-- object; what it has for a type is memory that the code leaves as it was, here `OBJ_STRING`.
unfoldable pub copy_from : NanoObj → NanoObj
copy_from (small_str n p b) = small_str n p (take n b)
copy_from (robj t e n i) = robj obj_string encoding_raw 0 null_ptr
copy_from o = o

-- `MoveFrom`: the target and what is left of the source.
unfoldable pub move_from : NanoObj → NanoObj × NanoObj
move_from o = (o, null_tag)

unfoldable pub obj_eq : NanoObj → NanoObj → Bool
unfolding is_string get_string_view
obj_eq (int_tag a) (int_tag b) = eqb_ℤ a b
obj_eq a b =
    if is_string a && is_string b then bytes_eq (get_string_view a) (get_string_view b) else false
