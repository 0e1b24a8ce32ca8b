-- ===== src/NanoObj.antt =====
-- src/core/nano_obj.cc, include/core/nano_obj.h: the 16-byte tagged object. The tag and the union are
-- one data type, a constructor for each tag that the code sets: `inline_str` (tags 0 to 14, the
-- length), `int_tag` (INT_TAG), `small_str` (SMALL_STR_TAG), `robj` (ROBJ_TAG), `null_tag` (NULL_TAG).
-- `flag` is 0 in every object that the code makes, and `SetTag` and `SetFlag` have no caller.
-- Memory is not modelled: `Clear` and the functions that free have no counterpart.
pub mod Ops
pub mod RoundTrip
pub mod Buffer
pub mod Equality
use nano_redis.Prelude.{
  ℕ, zero, suc, ◌%◌, ◌^◌, Bool, true, false, ◌&&◌, ◌||◌, Option, none, some, List, [], ◌∷◌, Bytes,
  length, take, ltb, leb, ◌==◌, if◌then◌else◌,
}
use nano_redis.Prelude.Int.{ℤ}
use nano_redis.Util.{string2ll}

-- The heap object behind `inner_obj`: a `deque<NanoObj>`, a set and a map of strings, the last two by
-- their contents in the order of iteration.
mutual
  pub data NanoObj : Type 0 where
    inline_str : Bytes → NanoObj
    int_tag : ℤ → NanoObj
    small_str : ℕ → Bytes → Bytes → NanoObj
    robj : ℕ → ℕ → ℕ → Inner → NanoObj
    null_tag : NanoObj

  pub data Inner : Type 0 where
    null_ptr : Inner
    list_obj : Items → Inner
    set_obj : List Bytes → Inner
    hash_obj : List (Bytes × Bytes) → Inner

  pub data Items : Type 0 where
    nil : Items
    cons : NanoObj → Items → Items

abbrev pub inline_len : ℕ
inline_len = 14

abbrev pub obj_string : ℕ
obj_string = 0

abbrev pub obj_hash : ℕ
obj_hash = 1

abbrev pub obj_set : ℕ
obj_set = 2

abbrev pub obj_list : ℕ
obj_list = 3

abbrev pub obj_zset : ℕ
obj_zset = 4

abbrev pub encoding_raw : ℕ
encoding_raw = 0

abbrev pub encoding_int : ℕ
encoding_int = 1

abbrev pub encoding_hashtable : ℕ
encoding_hashtable = 2

abbrev pub encoding_skiplist : ℕ
encoding_skiplist = 7

abbrev pub encoding_embstr : ℕ
encoding_embstr = 8

abbrev pub to_list : Items → List NanoObj
to_list nil = []
to_list (cons o l) = o ∷ to_list l

abbrev pub of_list : List NanoObj → Items
of_list [] = nil
of_list (o ∷ l) = cons o (of_list l)

-- `SetInt`, `SetInlineString`, `SetSmallString`, `SetString`, `SetStringKey`
unfoldable pub set_small_string : Bytes → NanoObj
set_small_string str = small_str (length str % 2 ^ 16) (take 4 str) str

unfoldable pub set_string : Bytes → NanoObj
unfolding set_small_string
set_string str = if leb (length str) inline_len then inline_str str else set_small_string str

-- An optional number as an object, and the other text as a string.
abbrev pub int_or : Option ℤ → NanoObj → NanoObj
int_or none other = other
int_or (some z) other = int_tag z

unfoldable pub set_string_key : Bytes → NanoObj
unfolding set_string
set_string_key str =
    if leb (length str) 20 then int_or (string2ll str) (set_string str) else set_string str

-- The static factories.
abbrev pub from_string : Bytes → NanoObj
from_string = set_string

abbrev pub from_int : ℤ → NanoObj
from_int = int_tag

abbrev pub from_key : Bytes → NanoObj
from_key = set_string_key

abbrev pub init_robj : ℕ → ℕ → NanoObj
init_robj type encoding = robj type encoding 0 null_ptr

abbrev pub from_hash : NanoObj
from_hash = init_robj obj_hash encoding_hashtable

abbrev pub from_set : NanoObj
from_set = init_robj obj_set encoding_hashtable

abbrev pub from_list : NanoObj
from_list = init_robj obj_list encoding_raw

abbrev pub from_zset : NanoObj
from_zset = init_robj obj_zset encoding_skiplist
