-- ===== src/Util/Decimal.antt =====
-- The digits of the decimal print, and the loop of `String2ll` (src/core/util.cc) on digits.
use native.Mathlib.Nat.{pow-suc}
use nano_redis.Prelude.{
  Bool-cases, ltb→lt, inl, inr, ℕ, zero, suc, ◌+◌, ◌-◌, ◌*◌, ◌/◌, ◌%◌, ◌^◌, ◌≤◌, ◌<◌, some, [], ◌∷◌,
  ◌++◌, Bytes, length, length-append, ltb, if◌then◌else◌, ◌≡◌, refl, arith,
}
use nano_redis.Util.{u64_max, scan_digits, digits_loop, to_digits}

abbrev pub AreDigits : Bytes → Type 0
AreDigits [] = Unit
AreDigits (c ∷ s) = (b'0' ≤ c) × (c ≤ b'9') × AreDigits s

-- The number that the digits `s` make behind `v`.
abbrev pub value : Bytes → ℕ → ℕ
value [] v = v
value (c ∷ s) v = value s (v * 10 + (c - b'0'))

pub le-value : (s : Bytes) (v : ℕ) → v ≤ value s v
le-value [] v = omega arith
le-value (c ∷ s) v = omega (arith, le-value s (v * 10 + (c - b'0')))

pub scan_digits-value :
    (s : Bytes) (v : ℕ) → AreDigits s → value s v ≤ u64_max → scan_digits s v ≡ some (value s v, [])
unfolding scan_digits
scan_digits-value [] v d h = refl
scan_digits-value (c ∷ s) v d h =
    ground (arith, le-value s (v * 10 + (c - b'0')), scan_digits-value s (v * 10 + (c - b'0')))

pub value-append : (s : Bytes) (c v : ℕ) → value (s ++ c ∷ []) v ≡ value s v * 10 + (c - b'0')
value-append [] c v = refl
value-append (x ∷ s) c v = value-append s c (v * 10 + (x - b'0'))

AreDigits-append : (s : Bytes) (c : ℕ) → AreDigits s → b'0' ≤ c → c ≤ b'9' → AreDigits (s ++ c ∷ [])
AreDigits-append [] c d l h = (l, h, tt)
AreDigits-append (x ∷ s) c d l h = (d.0, d.1, AreDigits-append s c d.2 l h)

digits_loop-AreDigits : (f n : ℕ) → AreDigits (digits_loop f n)
unfolding digits_loop
digits_loop-AreDigits zero n = tt
digits_loop-AreDigits (suc f) n = elim (Bool-cases (ltb n 10)) [
  | inl small ↦ rw small (omega (arith, ltb→lt n 10 small))
  | inr large ↦ rw large (
      AreDigits-append (digits_loop f (n / 10)) (b'0' + n % 10) (digits_loop-AreDigits f (n / 10))
        (omega arith) (omega arith))
]

digits_loop_fuel : (f g n : ℕ) → n < f → n < g → digits_loop f n ≡ digits_loop g n
unfolding digits_loop
digits_loop_fuel zero g n p q = absurd (omega arith)
digits_loop_fuel (suc f) zero n p q = absurd (omega arith)
digits_loop_fuel (suc f) (suc g) n p q = ground (arith, digits_loop_fuel f g (n / 10))

pub to_digits_step :
    (n : ℕ)
    → to_digits n
      ≡ (if ltb n 10 then (b'0' + n) ∷ [] else to_digits (n / 10) ++ (b'0' + n % 10) ∷ [])
unfolding to_digits
to_digits_step n = ground (arith, digits_loop_fuel n (suc (n / 10)) (n / 10))

value-digits_loop : (f n : ℕ) → n < f → value (digits_loop f n) 0 ≡ n
unfolding digits_loop
value-digits_loop zero n h = absurd (omega arith)
value-digits_loop (suc f) n h =
    ground
      (arith, value-digits_loop f (n / 10), value-append (digits_loop f (n / 10)) (b'0' + n % 10) 0)

-- What `to_digits` prints: digits, the first of them positive, that make `n`, 19 of them below 10^19.
pub to_digits-AreDigits : (n : ℕ) → AreDigits (to_digits n)
unfolding to_digits
to_digits-AreDigits n = digits_loop-AreDigits (suc n) n

pub value-to_digits : (n : ℕ) → value (to_digits n) 0 ≡ n
unfolding to_digits
value-to_digits n = value-digits_loop (suc n) n (omega arith)

length-digits_loop : (f n k : ℕ) → n < f → n < 10 ^ suc k → length (digits_loop f n) ≤ suc k
unfolding digits_loop
length-digits_loop zero n k h b = absurd (omega arith)
length-digits_loop (suc f) n zero h b = ground arith
length-digits_loop (suc f) n (suc k) h b = ground (
  arith,
  pow-suc 10 (suc k),
  length-append (digits_loop f (n / 10)) ((b'0' + n % 10) ∷ []),
  length-digits_loop f (n / 10) k,
)

pub length-to_digits : (n : ℕ) → n < 10 ^ 19 → length (to_digits n) ≤ 19
unfolding to_digits
length-to_digits n h = length-digits_loop (suc n) n 18 (omega arith) h

-- A positive number has a positive first digit.
abbrev pub Leads : Bytes → Type 0
Leads [] = ⊥
Leads (c ∷ s) = (b'1' ≤ c) × (c ≤ b'9')

Leads-append : (s t : Bytes) → Leads s → Leads (s ++ t)
Leads-append [] t h = absurd h
Leads-append (c ∷ s) t h = h

digits_loop-Leads : (f n : ℕ) → 0 < n → n < f → Leads (digits_loop f n)
unfolding digits_loop
digits_loop-Leads zero n p h = absurd (omega arith)
digits_loop-Leads (suc f) n p h = elim (Bool-cases (ltb n 10)) [
  | inl small ↦ rw small (omega (arith, ltb→lt n 10 small))
  | inr large ↦ rw large (
      Leads-append (digits_loop f (n / 10)) _
        (digits_loop-Leads f (n / 10) (ground arith) (ground arith)))
]

pub to_digits-Leads : (n : ℕ) → 0 < n → Leads (to_digits n)
unfolding to_digits
to_digits-Leads n p = digits_loop-Leads (suc n) n p (omega arith)
