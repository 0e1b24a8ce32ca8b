-- ===== src/TaskQueue/Capacity.antt =====
-- `RoundUpPowerOfTwo` (src/core/task_queue.cc).
use nano_redis.Prelude.{
  ℕ, zero, suc, ◌+◌, ◌*◌, ◌%◌, ◌^◌, ◌≤◌, ◌<◌, ◌≡◌, refl, ap, arith, Option, some, ltb, Bool-cases,
  inl, inr,
}
use native.Mathlib.Decide.{dec_lt}
use nano_redis.Prelude.Powers.{pow_next, pow_mono}
use nano_redis.TaskQueue.{double_until, round_up_power_of_two}

-- `o` is the least power of two from `x` on, of `2 ^ i` and above.
pub record LeastPower (x : ℕ) (o : Option ℕ) : Type 0 where
  pub bits : ℕ
  pub is : o ≡ some (2 ^ bits)
  pub enough : x ≤ 2 ^ bits
  pub least : 2 ^ bits < 2 * x

double_until_lem :
    (fuel i x : ℕ)
    → i + fuel ≡ 64
    → x ≤ 2 ^ 63
    → 2 ^ i < 2 * x
    → LeastPower x (double_until fuel x (2 ^ i))
unfolding double_until
double_until_lem zero i x e h l =
    let last : i ≡ 64 = omega (arith, e) in
    let same : 2 ^ i ≡ 2 ^ 64 = ap (λ (n : ℕ). 2 ^ n) last in absurd (omega (arith, same))
double_until_lem (suc fuel) i x e h l = elim (Bool-cases (ltb (2 ^ i) x)) [
  | inr big ↦ rw big (record { bits = i; is = refl; enough = ground (arith, big); least = l })
  | inl small ↦
      let below : 2 ^ i < x = ground (arith, small) in
      let step : 2 ^ i * 2 % 2 ^ 64 ≡ 2 ^ (i + 1) = omega (arith, below, pow_next i (i + 1) refl) in
      let rest =
        double_until_lem fuel (i + 1) x (omega arith) h
          (omega (arith, below, pow_next i (i + 1) refl)) in
      rw (small, step) rest
]

-- `RoundUpPowerOfTwo` of a number up to 2^63 ends, after at most 64 rounds, with a power of two that
-- is not below it and at least 2, and no other such power of two is less.
pub round_up_power_of_two_lem :
    (x : ℕ)
    → x ≤ 2 ^ 63
    → (bits : ℕ) × (round_up_power_of_two x ≡ some (2 ^ bits))
      × (x ≤ 2 ^ bits)
      × (2 ≤ 2 ^ bits)
      × ((other : ℕ) → x ≤ 2 ^ other → 2 ≤ 2 ^ other → 2 ^ bits ≤ 2 ^ other)
unfolding round_up_power_of_two
round_up_power_of_two_lem x h = elim (Bool-cases (ltb x 2)) [
  | inl small ↦ rw small (1, refl, ground (arith, small), omega arith, λ other m two. two)
  | inr big ↦
      let many : 2 ≤ x = ground (arith, big) in
      let r = double_until_lem 64 0 x refl h (omega (arith, many)) in
      rw big (
        r.bits,
        r.is,
        r.enough,
        omega (arith, many, r.enough),
        λ other m two. elim (dec_lt other r.bits) [
          | no le ↦ pow_mono r.bits other (omega (arith, le))
          | yes less ↦ absurd (
              omega (
                arith,
                m,
                r.least,
                pow_next other (other + 1) refl,
                pow_mono (other + 1) r.bits (omega (arith, less)),
              ))
        ],
      )
]
