-- ===== src/DashTable/Float.antt =====
-- The float arithmetic of `NeedSplit` (src/core/dashtable.cc): whole numbers and products rounded to 24
-- significant bits, to the nearest and of two to the even one.
use nano_redis.Prelude.{
  refl, ℕ, zero, suc, ◌+◌, ◌-◌, ◌*◌, ◌/◌, ◌%◌, ◌^◌, ◌≤◌, ◌<◌, ◌≡◌, Bool, true, false, arith, ltb,
  leb, ◌==◌, if◌then◌else◌, Bool-cases, inl, inr, ap, sym,
}
use mathlib.Core.Path.{subst}
use native.Mathlib.Decide.{dec_lt}
use native.Mathlib.Nat.{mod-add-div', mul-le-mul_right, mod-lt}
use nano_redis.Prelude.Powers.{pow_pos, pow_next}

-- `low`, which is `q` steps, or the next multiple of `step`, by what is left of a number above `low`.
unfoldable pub nearest : ℕ → ℕ → ℕ → ℕ → ℕ
nearest step q low left =
    if ltb (2 * left) step
    then low
    else if ltb step (2 * left)
    then low + step
    else if q % 2 == 0
    then low
    else low + step

unfoldable pub round_even : ℕ → ℕ → ℕ
unfolding nearest
round_even step n = nearest step (n / step) (n - n % step) (n % step)

-- A step for each number of bits: the first that leaves 24 of them.
unfoldable pub round_from : ℕ → ℕ → ℕ → ℕ
unfolding round_even
round_from zero bits n = round_even (2 ^ bits) n
round_from (suc fuel) bits n =
    let more = round_from fuel (bits + 1) n in
    if ltb n (2 ^ 24 * 2 ^ bits) then round_even (2 ^ bits) n else more

-- Numbers below 2^88 have their 24 bits within 64 steps.
unfoldable pub to_float : ℕ → ℕ
unfolding round_from
to_float n = round_from 64 0 n

-- `size >= max_segment_size * kSplitThreshold`. The threshold is the float nearest to 0.8, which is
-- 13421773 / 2 ^ 24, and both sides are taken 2 ^ 24 times.
unfoldable pub is_full : ℕ → ℕ → Bool
unfolding to_float
is_full max_segment_size size =
    leb (to_float (13421773 * to_float max_segment_size)) (2 ^ 24 * to_float size)

round_even-bounds :
    (step n : ℕ) → (n - n % step ≤ round_even step n) × (round_even step n ≤ n - n % step + step)
unfolding round_even nearest
round_even-bounds step n = (ground arith, ground arith)

-- A multiple of the step that is not above a number is not above the multiple before the number.
multiple-le : (k step n : ℕ) → 0 < step → k * step ≤ n → k * step ≤ n - n % step
multiple-le k step n some_step h = elim (dec_lt (n / step) k) [
  | yes l ↦
      let wide = mul-le-mul_right step l in
      absurd (omega (arith, h, wide, mod-add-div' n step, mod-lt n some_step))
  | no m ↦
      let more : k ≤ n / step = omega (arith, m) in
      omega (arith, mul-le-mul_right step more, mod-add-div' n step)
]

multiple-gt : (k step n : ℕ) → n < k * step → n - n % step + step ≤ k * step
multiple-gt k step n h = elim (dec_lt (n / step) k) [
  | yes l ↦ omega (arith, mul-le-mul_right step l, mod-add-div' n step)
  | no m ↦
      let more : k ≤ n / step = omega (arith, m) in
      absurd (omega (arith, h, mul-le-mul_right step more, mod-add-div' n step))
]

nearest_mono :
    (step q low left more : ℕ) → left ≤ more → nearest step q low left ≤ nearest step q low more
unfolding nearest
nearest_mono step q low left more h = ground (arith, h)

quotient-le : (step n m : ℕ) → 0 < step → n ≤ m → n / step ≤ m / step
quotient-le step n m some_step h = elim (dec_lt (m / step) (n / step)) [
  | no k ↦ omega (arith, k)
  | yes l ↦ absurd (
      omega (
        arith,
        h,
        mul-le-mul_right step l,
        mod-add-div' n step,
        mod-add-div' m step,
        mod-lt m some_step,
      ))
]

round_even_mono : (step n m : ℕ) → 0 < step → n ≤ m → round_even step n ≤ round_even step m
unfolding round_even
round_even_mono step n m some_step h = elim (dec_lt (n / step) (m / step)) [
  | yes l ↦
      let apart : n - n % step + step ≤ m - m % step =
        omega (arith, mul-le-mul_right step l, mod-add-div' n step, mod-add-div' m step) in
      let a = round_even-bounds step n in
      let b = round_even-bounds step m in omega (arith, apart, a.1, b.0)
  | no k ↦
      let same : m / step ≡ n / step = omega (arith, k, quotient-le step n m some_step h) in
      let whole : m / step * step ≡ n / step * step = ap (λ (q : ℕ). q * step) same in
      let low : m - m % step ≡ n - n % step =
        omega (arith, whole, mod-add-div' n step, mod-add-div' m step) in
      let left : n % step ≤ m % step =
        omega (arith, whole, h, mod-add-div' n step, mod-add-div' m step) in
      subst (λ (q : ℕ). round_even step n ≤ nearest step q (m - m % step) (m % step)) (sym same)
        (subst (λ (z : ℕ). round_even step n ≤ nearest step (n / step) z (m % step)) (sym low)
          (nearest_mono step (n / step) (n - n % step) (n % step) (m % step) left))
]

round_from-le : (bits n : ℕ) → n < 2 ^ 24 * 2 ^ bits → round_even (2 ^ bits) n ≤ 2 ^ 24 * 2 ^ bits
round_from-le bits n h =
    let a = round_even-bounds (2 ^ bits) n in
    omega (arith, a.1, multiple-gt (2 ^ 24) (2 ^ bits) n h)

round_from-ge :
    (fuel bits n : ℕ) → 2 ^ 23 * 2 ^ bits ≤ n → 2 ^ 23 * 2 ^ bits ≤ round_from fuel bits n
unfolding round_from
round_from-ge zero bits n h =
    let a = round_even-bounds (2 ^ bits) n in
    omega (arith, a.0, multiple-le (2 ^ 23) (2 ^ bits) n (pow_pos bits) h)
round_from-ge (suc fuel) bits n h = elim (Bool-cases (ltb n (2 ^ 24 * 2 ^ bits))) [
  | inl e ↦
      let a = round_even-bounds (2 ^ bits) n in
      rw e (omega (arith, a.0, multiple-le (2 ^ 23) (2 ^ bits) n (pow_pos bits) h))
  | inr e ↦
      let double = pow_next bits (bits + 1) refl in
      let wide : 2 ^ 23 * 2 ^ (bits + 1) ≤ n = ground (arith, e, double) in
      rw e (omega (arith, double, round_from-ge fuel (bits + 1) n wide))
]

round_from_mono : (fuel bits n m : ℕ) → n ≤ m → round_from fuel bits n ≤ round_from fuel bits m
unfolding round_from
round_from_mono zero bits n m h = round_even_mono (2 ^ bits) n m (pow_pos bits) h
round_from_mono (suc fuel) bits n m h = elim (Bool-cases (ltb m (2 ^ 24 * 2 ^ bits))) [
  | inl e ↦
      let small : ltb n (2 ^ 24 * 2 ^ bits) ≡ true = ground (arith, e, h) in
      rw (e, small) (round_even_mono (2 ^ bits) n m (pow_pos bits) h)
  | inr e ↦ elim (Bool-cases (ltb n (2 ^ 24 * 2 ^ bits))) [
    | inl small ↦
        let double = pow_next bits (bits + 1) refl in
        let wide : 2 ^ 23 * 2 ^ (bits + 1) ≤ m = ground (arith, e, double) in
        let below : n < 2 ^ 24 * 2 ^ bits = ground (arith, small) in
        rw (e, small)
          (omega (arith, double, round_from-le bits n below, round_from-ge fuel (bits + 1) m wide))
    | inr big ↦ rw (e, big) (round_from_mono fuel (bits + 1) n m h)
  ]
]

leb-fewer : (a x y : ℕ) → x ≤ y → leb a (2 ^ 24 * y) ≡ false → leb a (2 ^ 24 * x) ≡ false
leb-fewer a x y h e = ground (arith, h, e)

-- Fewer entries than some that do not fill a segment do not fill it.
pub is_full_mono :
    (max_segment_size n m : ℕ)
    → n ≤ m
    → is_full max_segment_size m ≡ false
    → is_full max_segment_size n ≡ false
unfolding is_full to_float
is_full_mono max_segment_size n m h e =
    leb-fewer (to_float (13421773 * to_float max_segment_size)) (to_float n) (to_float m)
      (round_from_mono 64 0 n m h) e
