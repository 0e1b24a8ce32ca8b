-- ===== src/StringFamily/Numbers.antt =====
-- `ParseInt` (src/command/string_family.cc) and the arithmetic of 64 bits with sign.
use nano_redis.Prelude.{
  ℕ, zero, suc, ◌+◌, ◌-◌, ◌*◌, ◌≤◌, ◌≡◌, refl, arith, ap, ◌∙◌, Bool, true, false, some, [], ◌∷◌,
  Bytes, ◌==◌,
}
use nano_redis.Prelude.Int.{ℤ, pos, negsuc, IsInt64}
use mathlib.Core.Path.{subst, sym}
use nano_redis.Util.{is_digit, to_digits, to_string}
use nano_redis.Util.Decimal.{
  AreDigits, value, to_digits-AreDigits, value-to_digits, Leads, to_digits-Leads,
}
use nano_redis.ListFamily.{read_digits}
use nano_redis.StringFamily.{
  in_int64, with_rest, unsigned_chars, from_chars, whole, parse_int, wrap64,
}

zero_digits : to_digits 0 ≡ b'0' ∷ []
unfolding to_digits
zero_digits = refl

read_digits-AreDigits : (s : Bytes) (v : ℕ) → AreDigits s → read_digits s v ≡ (value s v, [])
unfolding read_digits
read_digits-AreDigits [] v d = refl
read_digits-AreDigits (c ∷ s) v d =
    let test : is_digit c ≡ true = ground (arith, d) in
    rw test (read_digits-AreDigits s (v * 10 + (c - b'0')) d.2)

-- the number goes on behind its first digit
rest-AreDigits :
    (c : ℕ) (s : Bytes)
    → AreDigits (c ∷ s)
    → read_digits s (0 * 10 + (c - b'0')) ≡ (value (c ∷ s) 0, [])
rest-AreDigits c s d = read_digits-AreDigits s (0 * 10 + (c - b'0')) d.2

unsigned_chars-AreDigits :
    (negative : Bool) (c : ℕ) (s : Bytes)
    → AreDigits (c ∷ s)
    → unsigned_chars negative (c ∷ s) ≡ with_rest (in_int64 negative (value (c ∷ s) 0)) []
unfolding unsigned_chars
unsigned_chars-AreDigits negative c s d =
    let test : is_digit c ≡ true = ground (arith, d) in
    rw test (ap (λ (r : ℕ × Bytes). with_rest (in_int64 negative r.0) r.1) (rest-AreDigits c s d))

from_Leads : (s : Bytes) → Leads s → (c : ℕ) × (t : Bytes) × (s ≡ c ∷ t)
from_Leads [] l = absurd l
from_Leads (c ∷ t) l = (c, t, refl)

to_digits-cons : (n : ℕ) → (c : ℕ) × (t : Bytes) × (to_digits n ≡ c ∷ t)
to_digits-cons zero = (b'0', [], zero_digits)
to_digits-cons (suc n) = from_Leads (to_digits (suc n)) (to_digits-Leads (suc n) (omega arith))

-- What is printed is digits, and is read as the number.
unsigned_chars-to_digits :
    (negative : Bool) (n : ℕ)
    → (c : ℕ) × (t : Bytes) × (to_digits n ≡ c ∷ t)
      × (b'0' ≤ c)
      × (unsigned_chars negative (c ∷ t) ≡ with_rest (in_int64 negative n) [])
unsigned_chars-to_digits negative n =
    let (c, t, e) = to_digits-cons n in
    let d : AreDigits (c ∷ t) = subst AreDigits e (to_digits-AreDigits n) in
    let v : value (c ∷ t) 0 ≡ n = ap (λ (s : Bytes). value s 0) (sym e) ∙ value-to_digits n in
    (
      c,
      t,
      e,
      d.0,
      unsigned_chars-AreDigits negative c t d
          ∙ ap (λ (m : ℕ). with_rest (in_int64 negative m) []) v,
    )

to_string-pos : (n : ℕ) → to_string (pos n) ≡ to_digits n
unfolding to_string
to_string-pos n = refl

to_string-negsuc : (n : ℕ) → to_string (negsuc n) ≡ b'-' ∷ to_digits (suc n)
unfolding to_string
to_string-negsuc n = refl

from_chars-digit :
    (c : ℕ) (t : Bytes) → b'0' ≤ c → from_chars (c ∷ t) ≡ unsigned_chars false (c ∷ t)
unfolding from_chars
from_chars-digit c t h = let test : (c == b'-') ≡ false = ground (arith, h) in rw test refl

from_chars-minus : (s : Bytes) → from_chars (b'-' ∷ s) ≡ unsigned_chars true s
unfolding from_chars
from_chars-minus s = refl

parse_int_lem : (s : Bytes) → parse_int s ≡ whole (from_chars s)
unfolding parse_int
parse_int_lem s = refl

-- `ParseInt` reads every number of 64 bits with sign back from its decimal print.
pub parse_int-to_string : (z : ℤ) → IsInt64 z → parse_int (to_string z) ≡ some z
parse_int-to_string (pos n) h =
    let (c, t, e, digit, run) = unsigned_chars-to_digits false n in
    ap parse_int (to_string-pos n ∙ e)
    ∙ parse_int_lem (c ∷ t)
    ∙ ap whole (from_chars-digit c t digit ∙ run)
    ∙ ground (arith, h)
parse_int-to_string (negsuc n) h =
    let (c, t, e, digit, run) = unsigned_chars-to_digits true (suc n) in
    ap parse_int (to_string-negsuc n)
    ∙ parse_int_lem (b'-' ∷ to_digits (suc n))
    ∙ ap whole (from_chars-minus (to_digits (suc n)) ∙ ap (unsigned_chars true) e ∙ run)
    ∙ ground (arith, h)

-- Within its range, the arithmetic is that of the integers.
pub wrap64_id : (z : ℤ) → IsInt64 z → wrap64 z ≡ z
unfolding wrap64
wrap64_id (pos n) h = ground arith
wrap64_id (negsuc n) h = ground arith
