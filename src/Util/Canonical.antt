-- ===== src/Util/Canonical.antt =====
-- `String2ll` of src/core/util.cc against the decimal print.
use nano_redis.Prelude.{
  ℕ, zero, suc, ◌+◌, ◌-◌, ◌*◌, ◌/◌, ◌%◌, ◌≤◌, ◌<◌, Bool, true, false, ◌&&◌, some, [], ◌∷◌, ◌++◌,
  Bytes, length, leb, ◌==◌, if◌then◌else◌, ◌≡◌, refl, sym, arith, append_assoc, append-nil, ◌∙◌,
  Bool-cases, Option-cases, inl, inr,
}
use nano_redis.Prelude.Int.{ℤ, pos, negsuc, IsInt64}
use nano_redis.Util.{
  u64_max, is_digit, scan_digits, to_signed, finish, convert, string2ll, to_digits, to_string,
}
use nano_redis.Util.Decimal.{
  AreDigits, value, Leads, scan_digits-value, to_digits-AreDigits, value-to_digits,
  length-to_digits, to_digits-Leads, to_digits_step, le-value,
}

convert-digits :
    (negative : Bool) (s : Bytes)
    → AreDigits s
    → Leads s
    → value s 0 ≤ u64_max
    → convert negative s ≡ to_signed negative (value s 0)
unfolding convert finish
convert-digits negative [] d l h = absurd l
convert-digits negative (c ∷ t) d l h = ground (arith, scan_digits-value t (c - b'0') d.2)

string2ll-digits :
    (s : Bytes)
    → AreDigits s
    → Leads s
    → length s ≤ 20
    → value s 0 ≤ u64_max
    → string2ll s ≡ to_signed false (value s 0)
unfolding string2ll to_signed
string2ll-digits [] d l n h = absurd l
string2ll-digits (c ∷ []) d l n h = ground arith
string2ll-digits (c ∷ e ∷ t) d l n h = ground (arith, convert-digits false (c ∷ e ∷ t))

string2ll-minus :
    (s : Bytes)
    → AreDigits s
    → Leads s
    → length s ≤ 19
    → value s 0 ≤ u64_max
    → string2ll (b'-' ∷ s) ≡ to_signed true (value s 0)
unfolding string2ll
string2ll-minus [] d l n h = absurd l
string2ll-minus (c ∷ t) d l n h = ground (arith, convert-digits true (c ∷ t))

-- `String2ll` reads every number of 64 bits with sign back from its decimal print.
pub string2ll-to_string : (z : ℤ) → IsInt64 z → string2ll (to_string z) ≡ some z
unfolding to_string to_signed
string2ll-to_string (pos zero) h = unfold string2ll to_digits in refl
string2ll-to_string (pos (suc n)) h = ground (
  arith,
  string2ll-digits (to_digits (suc n)) (to_digits-AreDigits (suc n))
      (to_digits-Leads (suc n) (omega arith)),
  length-to_digits (suc n),
  value-to_digits (suc n),
)
string2ll-to_string (negsuc n) h = ground (
  arith,
  string2ll-minus (to_digits (suc n)) (to_digits-AreDigits (suc n))
      (to_digits-Leads (suc n) (omega arith)),
  length-to_digits (suc n),
  value-to_digits (suc n),
)

scan_digits-inv :
    (s : Bytes) (v w : ℕ) → scan_digits s v ≡ some (w, []) → AreDigits s × (value s v ≡ w)
unfolding scan_digits
scan_digits-inv [] v w h = (tt, ground arith)
scan_digits-inv (c ∷ s) v w h =
    let step : (leb b'0' c && leb c b'9' ≡ true)
        × (scan_digits s (v * 10 + (c - b'0')) ≡ some (w, [])) =
      ground arith in
    let (d, e) = scan_digits-inv s (v * 10 + (c - b'0')) w step.1 in
    ((ground arith, ground arith, d), e)

-- Printing what digits make behind a positive `v` prints `v` and those digits.
to_digits-value :
    (s : Bytes) (v : ℕ) → 0 < v → AreDigits s → to_digits (value s v) ≡ to_digits v ++ s
to_digits-value [] v p d = sym (append-nil (to_digits v))
to_digits-value (c ∷ s) v p d =
    let n = v * 10 + (c - b'0') in
    let q : n / 10 ≡ v = omega arith in
    let r : b'0' + n % 10 ≡ c = omega arith in
    let e : to_digits n ≡ to_digits v ++ c ∷ [] = ground (arith, to_digits_step n) in
    to_digits-value s n (omega arith) d.2 ∙ rw (e, append_assoc)

to_digits-small : (n : ℕ) → n < 10 → to_digits n ≡ (b'0' + n) ∷ []
to_digits-small n h = ground (arith, to_digits_step n)

-- The number `v` behind a successful `convert`.
convert-inv :
    (negative : Bool) (s : Bytes) (z : ℤ)
    → convert negative s ≡ some z
    → (v : ℕ) × (0 < v) × (to_digits v ≡ s) × (to_signed negative v ≡ some z)
unfolding convert finish
convert-inv negative [] z h = cc
convert-inv negative (c ∷ t) z h = elim (Option-cases (scan_digits t (c - b'0'))) [
  | inl e ↦ absurd (ground arith)
  | inr ((v, []), e) ↦
      let lead : (b'1' ≤ c) × (c ≤ b'9') = (ground arith, ground arith) in
      let (d, w) = scan_digits-inv t (c - b'0') v e in
      let small = to_digits-small (c - b'0') (omega arith) in
      (
        v,
        omega (arith, le-value t (c - b'0')),
        rw (← w) (to_digits-value t (c - b'0') (omega arith) d ∙ ground arith),
        ground arith,
      )
  | inr ((v, x ∷ l), e) ↦ absurd (ground arith)
]

to_string-to_signed :
    (negative : Bool) (v : ℕ) (z : ℤ)
    → 0 < v
    → to_signed negative v ≡ some z
    → (to_string z ≡ (if negative then b'-' ∷ to_digits v else to_digits v)) × IsInt64 z
unfolding to_signed to_string
to_string-to_signed true v (pos n) p h = absurd (ground arith)
to_string-to_signed true (suc v) (negsuc n) p h =
    let e : n ≡ v = ground arith in (rw e, ground arith)
to_string-to_signed true zero (negsuc n) p h = absurd (omega arith)
to_string-to_signed false v (pos n) p h = let e : n ≡ v = ground arith in (rw e, ground arith)
to_string-to_signed false v (negsuc n) p h = absurd (ground arith)

to_string-convert :
    (negative : Bool) (s : Bytes) (z : ℤ)
    → convert negative s ≡ some z
    → (to_string z ≡ (if negative then b'-' ∷ s else s)) × IsInt64 z
to_string-convert negative s z h =
    let (v, p, e, q) = convert-inv negative s z h in rw (← e) (to_string-to_signed negative v z p q)

-- What `String2ll` reads is a number of 64 bits with sign, and printed in decimal it is the text that
-- was read: no other spelling of a number is taken.
pub to_string-string2ll : (s : Bytes) (z : ℤ) → string2ll s ≡ some z → (to_string z ≡ s) × IsInt64 z
unfolding string2ll
to_string-string2ll [] z h = absurd (ground arith)
to_string-string2ll (c ∷ []) z h = elim (Bool-cases (is_digit c)) [
  | inl digit ↦
      let e : z ≡ pos (c - b'0') = ground arith in
      rw e (unfold to_string in (ground (arith, to_digits-small (c - b'0')), ground arith))
  | inr other ↦ to_string-convert false (c ∷ []) z (ground arith)
]
to_string-string2ll (c ∷ x ∷ s) z h = elim (Bool-cases (c == b'-')) [
  | inl minus ↦
      let e : c ≡ b'-' = ground arith in rw e (to_string-convert true (x ∷ s) z (ground arith))
  | inr other ↦ to_string-convert false (c ∷ x ∷ s) z (ground arith)
]
