-- ===== src/Prelude/Powers.antt =====
-- Powers of two, and the blocks of a power of two in which a number lies.
use Prim.Native.Nat.{ℕ, zero, suc, ◌+◌, ◌-◌, ◌*◌, ◌/◌, ◌%◌, ◌≤◌, ◌<◌, ◌^◌}
use mathlib.Core.Path.{◌≡◌, ap, sym, ◌∙◌}
use native.Mathlib.Nat.{
  pow-suc, div-div-eq-div-mul, div-eq_of_lt-le, lt-div-mul-add, div-mul-le_self, mul-le-mul_right,
  mul_assoc, div-lt_iff_lt-mul, suc-mul, mod-add-div',
}
use native.Mathlib.Omega.{arith}
use mathlib.Core.Bool.{◌&&◌}
use mathlib.Core.Logic.{inl, inr}
use nano_redis.Prelude.Tests.{leb, ltb, ◌==◌, ==_iff, Bool-cases}

pub pow_pos : (n : ℕ) → 0 < 2 ^ n
pow_pos zero = omega arith
pow_pos (suc n) = omega (arith, pow-suc 2 n, pow_pos n)

pub pow_next : (n m : ℕ) → n + 1 ≡ m → 2 ^ m ≡ 2 ^ n * 2
pow_next n m h = ap (λ (k : ℕ). 2 ^ k) (sym h ∙ omega arith) ∙ pow-suc 2 n

pow-add : (n d : ℕ) → 2 ^ (d + n) ≡ 2 ^ d * 2 ^ n
pow-add zero d = let e : d + 0 ≡ d = omega arith in ap (λ (k : ℕ). 2 ^ k) e ∙ omega arith
pow-add (suc n) d = omega (
  arith,
  pow_next (d + n) (d + suc n) (omega arith),
  pow-add n d,
  pow-suc 2 n,
  mul_assoc (2 ^ d) (2 ^ n) 2,
  ap (λ (k : ℕ). 2 ^ d * k) (pow-suc 2 n),
)

pub pow_split : (n m : ℕ) → n ≤ m → 2 ^ m ≡ 2 ^ (m - n) * 2 ^ n
pow_split n m h = let e : m ≡ m - n + n = omega arith in ap (λ (k : ℕ). 2 ^ k) e ∙ pow-add n (m - n)

pub pow_mono : (n m : ℕ) → n ≤ m → 2 ^ n ≤ 2 ^ m
pow_mono n m h =
    let e = mul-le-mul_right (2 ^ n) (pow_pos (m - n)) in omega (arith, pow_split n m h)

pub block-half : (i c : ℕ) → i / (c * 2) ≡ i / c / 2
block-half i c = sym (div-div-eq-div-mul i c 2)

pub block_eq : (i c a : ℕ) → a * c ≤ i → i < a * c + c → i / c ≡ a
block_eq i c a lo hi = div-eq_of_lt-le c lo (omega arith)

pub block_bounds : (i c : ℕ) → 0 < c → (i / c * c ≤ i) × (i < i / c * c + c)
block_bounds i c h = (div-mul-le_self i c, lt-div-mul-add h)

pub block_twice : (i c : ℕ) → i / (c * 2) ≡ i / 2 / c
block_twice i c =
    let e : c * 2 ≡ 2 * c = omega arith in ap (λ (k : ℕ). i / k) e ∙ sym (div-div-eq-div-mul i 2 c)

-- The first number of a block.
pub block_start : (i c : ℕ) → i - i % c ≡ i / c * c
block_start i c = omega (arith, mod-add-div' i c)

pub prefix-lt : (n m i : ℕ) → m ≤ n → i < 2 ^ n → i / 2 ^ (n - m) < 2 ^ m
prefix-lt n m i h l = (div-lt_iff_lt-mul (pow_pos (n - m))).1 (omega (arith, pow_split m n h))

-- A block of 2 ^ (n - m) that starts below 2 ^ n ends at 2 ^ n at most.
pub block_end :
    (n m i : ℕ) → m ≤ n → i < 2 ^ n → i / 2 ^ (n - m) * 2 ^ (n - m) + 2 ^ (n - m) ≤ 2 ^ n
block_end n m i h l = omega (
  arith,
  pow_split m n h,
  suc-mul (i / 2 ^ (n - m)) (2 ^ (n - m)),
  mul-le-mul_right (2 ^ (n - m)) (prefix-lt n m i h l),
)

pub prefix-prefix : (n m i : ℕ) → m ≤ n → n ≤ 64 → i / 2 ^ (64 - n) / 2 ^ (n - m) ≡ i / 2 ^ (64 - m)
prefix-prefix n m i h l =
    let e : 64 - m - (n - m) ≡ 64 - n = omega arith in
    div-div-eq-div-mul i (2 ^ (64 - n)) (2 ^ (n - m))
    ∙ ap (λ (k : ℕ). i / k)
        (ap (λ (k : ℕ). 2 ^ k * 2 ^ (n - m)) (sym e)
          ∙ sym (pow_split (n - m) (64 - m) (omega arith)))

-- Membership in a block, as the two comparisons that programs write.
pub in_block : (a c n : ℕ) → 0 < c → (leb (a * c) n && ltb n (a * c + c)) ≡ (n / c == a)
in_block a c n h =
    let (lo, hi) = block_bounds n c h in
    elim (Bool-cases (n / c == a)) [
      | inl e ↦
          let q : n / c * c ≡ a * c = ap (λ (k : ℕ). k * c) ((==_iff (n / c) a).0 e) in
          rw e (ground (arith, lo, hi, q))
      | inr e ↦ rw e (ground (arith, block_eq n c a))
    ]
