-- ===== src/Util.antt =====
-- src/core/util.cc: `String2ll` and `EqualsIgnoreCase`, and the decimal print of the standard library
-- (`std::to_string`, `std::to_chars`).
pub mod Decimal
pub mod Canonical
pub mod Text
use nano_redis.Prelude.{
  ℕ, zero, suc, ◌+◌, ◌-◌, ◌*◌, ◌/◌, ◌%◌, ◌^◌, Bool, true, false, ◌&&◌, ◌||◌, Option, none, some,
  List, [], ◌∷◌, ◌++◌, Bytes, length, ltb, leb, ◌==◌, if◌then◌else◌,
}
use nano_redis.Prelude.Int.{ℤ, pos, negsuc, sub_ℕ, int64_max}

abbrev pub u64_mod : ℕ
u64_mod = 2 ^ 64

abbrev pub u64_max : ℕ
u64_max = 2 ^ 64 - 1

abbrev pub is_digit : ℕ → Bool
is_digit c = leb b'0' c && leb c b'9'

-- `p[0]`; past the end the code does not read.
abbrev pub first : Bytes → ℕ
first [] = 0
first (c ∷ s) = c

-- `p++`
abbrev pub rest : Bytes → Bytes
rest [] = []
rest (c ∷ s) = s

-- The `while` loop over the digits: the number read and what is left.
unfoldable pub scan_digits : Bytes → ℕ → Option (ℕ × Bytes)
scan_digits [] v = some (v, [])
scan_digits (c ∷ s) v =
    let v10 = v * 10 % u64_mod in
    let digit = c - b'0' in
    let more = scan_digits s ((v10 + digit) % u64_mod) in
    if is_digit c
    then if ltb (u64_max / 10) v then none else if ltb (u64_max - digit) v10 then none else more
    else some (v, c ∷ s)

-- The range checks behind the loop.
unfoldable pub to_signed : Bool → ℕ → Option ℤ
to_signed true v = if ltb (2 ^ 63) v then none else some (sub_ℕ 0 v)
to_signed false v = if ltb int64_max v then none else some (pos v)

unfoldable pub finish : Bool → Option (ℕ × Bytes) → Option ℤ
unfolding to_signed
finish negative none = none
finish negative (some (v, [])) = to_signed negative v
finish negative (some (v, c ∷ s)) = none

unfoldable pub convert : Bool → Bytes → Option ℤ
unfolding finish scan_digits
convert negative p =
    if leb b'1' (first p) && leb (first p) b'9'
    then finish negative (scan_digits (rest p) (first p - b'0'))
    else none

unfoldable pub string2ll : Bytes → Option ℤ
unfolding convert
string2ll s =
    if length s == 0 || leb 21 (length s)
    then none
    else if length s == 1 && is_digit (first s)
    then some (pos (first s - b'0'))
    else if first s == b'-'
    then (if length s == 1 then none else convert true (rest s))
    else convert false s

-- Decimal digits of `n`, most significant first; `n < fuel` is enough.
unfoldable pub digits_loop : ℕ → ℕ → Bytes
digits_loop zero n = []
digits_loop (suc f) n =
    let more = digits_loop f (n / 10) in
    if ltb n 10 then (b'0' + n) ∷ [] else more ++ (b'0' + n % 10) ∷ []

unfoldable pub to_digits : ℕ → Bytes
unfolding digits_loop
to_digits n = digits_loop (suc n) n

unfoldable pub to_string : ℤ → Bytes
unfolding to_digits
to_string (pos n) = to_digits n
to_string (negsuc n) = b'-' ∷ to_digits (suc n)

unfoldable pub upper : ℕ → ℕ
upper c = if leb b'a' c && leb c b'z' then c - b'a' + b'A' else c

same_letters : Bytes → Bytes → Bool
same_letters [] b = true
same_letters (x ∷ a) [] = true
same_letters (x ∷ a) (y ∷ b) = upper x == upper y && same_letters a b

unfoldable pub equals_ignore_case : Bytes → Bytes → Bool
unfolding same_letters
equals_ignore_case a b = if length a == length b then same_letters a b else false
