-- ===== src/StringFamily.antt =====
-- src/command/string_family.cc: the commands on strings and on the keyspace. A handler takes the
-- arguments, the readings of the clock that its calls of the database will make, and the database, and
-- returns the database and the reply: `none` where the code throws an exception of the library.
pub mod Handlers
pub mod Places
pub mod Keyspace
pub mod Numbers
pub mod Reads
pub mod Counters
pub mod Ranges
pub mod Overwriting
pub mod Many
pub mod Setting
use nano_redis.Prelude.{
  ℕ, zero, suc, ◌+◌, ◌-◌, ◌*◌, ◌/◌, ◌%◌, ◌^◌, Bool, true, false, ◌||◌, Option, none, some, List, [],
  ◌∷◌, ◌++◌, Bytes, codes, length, take, drop, set, is_empty, leb, ltb, ◌==◌, if◌then◌else◌,
}
use nano_redis.Prelude.Int.{ℤ, pos, negsuc, sub_ℕ, int64_max, ltb_ℤ, leb_ℤ, ◌+ℤ◌, ◌-ℤ◌}
use nano_redis.Util.{is_digit}
use nano_redis.ListFamily.{read_digits}
use nano_redis.Resp.{make_error}

-- `std::from_chars` in base 10: a minus sign or none, and digits; the number and what is left. `none`
-- where there is no digit, or the number is not one of 64 bits with sign.
abbrev pub in_int64 : Bool → ℕ → Option ℤ
in_int64 true v = if leb v (2 ^ 63) then some (sub_ℕ 0 v) else none
in_int64 false v = if leb v int64_max then some (pos v) else none

abbrev pub with_rest : Option ℤ → Bytes → Option (ℤ × Bytes)
with_rest none left = none
with_rest (some z) left = some (z, left)

unfoldable pub unsigned_chars : Bool → Bytes → Option (ℤ × Bytes)
unfolding read_digits
unsigned_chars negative [] = none
unsigned_chars negative (c ∷ s) =
    let (v, left) = read_digits (c ∷ s) 0 in
    if is_digit c then with_rest (in_int64 negative v) left else none

unfoldable pub from_chars : Bytes → Option (ℤ × Bytes)
unfolding unsigned_chars
from_chars [] = none
from_chars (c ∷ s) = if c == b'-' then unsigned_chars true s else unsigned_chars false (c ∷ s)

-- The whole text has to be the number.
abbrev pub whole : Option (ℤ × Bytes) → Option ℤ
whole none = none
whole (some (z, left)) = if is_empty left then some z else none

unfoldable pub parse_int : Bytes → Option ℤ
unfolding from_chars
parse_int s = whole (from_chars s)

unfoldable pub adjust_index : ℤ → ℤ → ℤ
adjust_index index size =
    let i = if ltb_ℤ index (pos 0) then index +ℤ size else index in
    let i' = if ltb_ℤ i (pos 0) then pos 0 else i in if leb_ℤ size i' then size -ℤ pos 1 else i'

-- The value of 64 bits with sign that is left of an integer: what `+` and `-` give on the machine.
abbrev pub signed64 : ℕ → ℤ
signed64 v = if ltb v (2 ^ 63) then pos v else negsuc (2 ^ 64 - 1 - v)

unfoldable pub wrap64 : ℤ → ℤ
wrap64 (pos n) = signed64 (n % 2 ^ 64)
wrap64 (negsuc n) = signed64 (2 ^ 64 - 1 - n % 2 ^ 64)

-- `static_cast<size_t>`
abbrev pub to_size : ℤ → ℕ
to_size (pos n) = n % 2 ^ 64
to_size (negsuc n) = 2 ^ 64 - 1 - n % 2 ^ 64

-- `std::string::substr`, which throws where the position is behind the end.
unfoldable pub substr : Bytes → ℕ → ℕ → Option Bytes
substr s start count = if ltb (length s) start then none else some (take count (drop start s))

abbrev pub zeros : ℕ → Bytes
zeros zero = []
zeros (suc n) = 0 ∷ zeros n

-- `std::string::resize` with zero bytes.
unfoldable pub resize : Bytes → ℕ → Bytes
resize s n = take n (s ++ zeros (n - length s))

-- for (i = 0; i < value_str.length(); ++i) new_value[offset_sz + i] = value_str[i]
unfoldable pub overwrite : Bytes → ℕ → Bytes → Bytes
overwrite s offset [] = s
overwrite s offset (c ∷ value) = overwrite (set s offset c) (offset + 1) value

-- Seconds as milliseconds, held at the largest int64.
abbrev pub to_ms : ℕ → ℕ
to_ms seconds = if ltb (int64_max / 1000) seconds then int64_max else seconds * 1000

abbrev pub invalid_integer : Bytes
invalid_integer = make_error (codes "value is not an integer or out of range")

abbrev pub invalid_expire_time : Bytes
invalid_expire_time = make_error (codes "invalid expire time in 'set' command")

abbrev pub wrong_number : Bytes → Bytes
wrong_number name = make_error (codes "wrong number of arguments for '" ++ (name ++ codes "'"))
