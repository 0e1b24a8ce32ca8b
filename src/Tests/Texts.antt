-- ===== src/Tests/Texts.antt =====
-- Numbers, texts and objects.
use nano_redis.Prelude.{
  ℕ, zero, suc, true, some, [], ◌∷◌, Bytes, bytes_eq_refl, codes, length, ◌↔◌, ◌≢◌, ◌≡◌, refl, ap,
  arith,
}
use nano_redis.Prelude.Int.{negsuc, IsInt64}
use nano_redis.Util.{string2ll, to_string}
use nano_redis.Util.Canonical.{string2ll-to_string, to_string-string2ll}
use nano_redis.NanoObj.{NanoObj, inline_str, small_str, from_string, from_key}
use nano_redis.NanoObj.Ops
use nano_redis.NanoObj.Ops.{obj_eq, copy_from, size, get_string_view, is_string}
use nano_redis.NanoObj.RoundTrip.{to_string-from_string_long, obj_eq-from_key}

abbrev minus_42 : Bytes
minus_42 = codes "-42"

read_minus_42 : string2ll minus_42 ≡ some (negsuc 41)
unfolding string2ll
read_minus_42 = refl

to_string-string2ll_example : (to_string (negsuc 41) ≡ minus_42) × IsInt64 (negsuc 41)
to_string-string2ll_example = to_string-string2ll minus_42 (negsuc 41) read_minus_42

string2ll-to_string_example : string2ll (to_string (negsuc 41)) ≡ some (negsuc 41)
string2ll-to_string_example = string2ll-to_string (negsuc 41) (omega arith)

obj_eq-from_key_example :
    (obj_eq (from_key (codes "12")) (from_key (codes "012")) ≡ true) ↔ (codes "12" ≡ codes "012")
obj_eq-from_key_example = obj_eq-from_key (codes "12") (codes "012") (omega arith) (omega arith)

zeros : ℕ → Bytes
zeros zero = []
zeros (suc n) = b'0' ∷ zeros n

length-zeros : (n : ℕ) → length (zeros n) ≡ n
unfolding zeros
length-zeros zero = refl
length-zeros (suc n) = ap suc (length-zeros n)

to_string-from_string_long_example : Ops.to_string (from_string (zeros 65536)) ≢ zeros 65536
to_string-from_string_long_example =
    to_string-from_string_long (zeros 65536) (omega (arith, length-zeros 65536))

-- A text of twenty bytes, in a buffer.
abbrev wide : NanoObj
wide = small_str 20 (codes "abcd") (codes "abcdefghijklmnopqrst")

abbrev short : NanoObj
short = inline_str (codes "ab")

abbrev short_in_wide : NanoObj
short_in_wide = small_str 2 (codes "ab") (codes "abc")

wide-eq-short : obj_eq short_in_wide short ≡ true
unfolding obj_eq
wide-eq-short = bytes_eq_refl (codes "ab")
