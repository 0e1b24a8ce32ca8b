-- ===== src/ListFamily.antt =====
-- src/command/list_family.cc: the list commands. A handler takes the arguments, the readings of the
-- clock that its calls of the database will make, and the database, and returns the database and the
-- reply: `none` where the code would follow a null pointer.
pub mod Deque
pub mod Handlers
pub mod Places
pub mod Changes
pub mod Ends
pub mod Ranges
pub mod Removal
pub mod Edits
use nano_redis.Prelude.{
  ℕ, zero, suc, ◌+◌, ◌-◌, ◌*◌, Bool, true, false, not, ◌&&◌, ◌||◌, Option, none, some, List, [],
  ◌∷◌, ◌++◌, Bytes, codes, length, is_empty, leb, ltb, ◌==◌, if◌then◌else◌,
}
use nano_redis.Prelude.Int.{ℤ, pos, negsuc, sub_ℕ, int64_max, ltb_ℤ, ◌+ℤ◌}
use nano_redis.Util.{is_digit}
use nano_redis.NanoObj.{NanoObj, Inner, list_obj, to_list, of_list, from_list}
use nano_redis.NanoObj.Ops
use nano_redis.NanoObj.Ops.{is_list, get_obj}
use nano_redis.Resp.{make_error}

-- `std::strtoll` in base 10: white space, a sign, and digits; the number, held in the range of 64 bits,
-- and what is left. `none` where there is no digit.
abbrev pub is_space : ℕ → Bool
is_space c = c == b' ' || (leb 9 c && leb c 13)

unfoldable pub skip_spaces : Bytes → Bytes
skip_spaces [] = []
skip_spaces (c ∷ s) = if is_space c then skip_spaces s else c ∷ s

unfoldable pub read_digits : Bytes → ℕ → ℕ × Bytes
read_digits [] v = (v, [])
read_digits (c ∷ s) v =
    let more = read_digits s (v * 10 + (c - b'0')) in if is_digit c then more else (v, c ∷ s)

abbrev clamp : Bool → ℕ → ℤ
clamp true v = if ltb int64_max v then negsuc int64_max else sub_ℕ 0 v
clamp false v = if ltb int64_max v then pos int64_max else pos v

unfoldable pub signed_digits : Bool → Bytes → Option (ℤ × Bytes)
unfolding read_digits
signed_digits negative [] = none
signed_digits negative (c ∷ s) =
    let (v, left) = read_digits (c ∷ s) 0 in
    if is_digit c then some (clamp negative v, left) else none

unfoldable pub after_sign : Bytes → Option (ℤ × Bytes)
unfolding signed_digits
after_sign [] = none
after_sign (c ∷ s) =
    if c == b'-'
    then signed_digits true s
    else if c == b'+'
    then signed_digits false s
    else signed_digits false (c ∷ s)

unfoldable pub strtoll : Bytes → Option (ℤ × Bytes)
unfolding skip_spaces after_sign
strtoll s = after_sign (skip_spaces s)

-- The text ends where the string does or at a zero byte.
abbrev pub at_end : Bytes → Bool
at_end [] = true
at_end (c ∷ s) = c == 0

abbrev pub in_range : ℤ → Option ℤ
in_range (pos n) = if n == int64_max then none else some (pos n)
in_range (negsuc n) = if n == int64_max then none else some (negsuc n)

unfoldable pub parse_long_long : Bytes → Option ℤ
unfolding strtoll
parse_long_long s = elim (strtoll s) [
  | none ↦ none
  | some (z, left) ↦ if at_end left then in_range z else none
]

-- The deque of a list object.
abbrev deque_in : Inner → Option (List NanoObj)
deque_in (list_obj l) = some (to_list l)
deque_in _ = none

abbrev pub deque_of : NanoObj → Option (List NanoObj)
deque_of obj = deque_in (get_obj obj)

abbrev pub with_deque : NanoObj → List NanoObj → NanoObj
with_deque obj l = Ops.set_obj obj (list_obj (of_list l))

-- A new list object with an empty deque.
abbrev pub new_list : NanoObj
new_list = with_deque from_list []

abbrev pub not_integer : Bytes
not_integer = make_error (codes "value is not an integer or out of range")
