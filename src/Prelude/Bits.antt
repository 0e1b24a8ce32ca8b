-- ===== src/Prelude/Bits.antt =====
-- Laws of `|` and `^` at variables, from the recursion on binary digits that the native operations
-- stand for.
use Prim.Native.Nat.{
  ℕ, zero, suc, ◌+◌, ◌*◌, ◌/◌, ◌%◌, ◌≤◌, ◌<◌, ◌^◌, max, bit_or, bit_xor, differ, digits,
  bit_or-bitwise, bit_xor-bitwise,
}
use mathlib.Core.Path.{◌≡◌, refl, ap, ◌∙◌}
use native.Mathlib.Nat.{pow-suc}
use native.Mathlib.Omega.{arith}

-- The count of digits to go does not matter once it covers the first number.
module _ (f : ℕ → ℕ → ℕ) where
  enough_digits : (n m a b : ℕ) → a ≤ n → a ≤ m → digits (λ y. y) f n a b ≡ digits (λ y. y) f m a b
  enough_digits n m zero b p q = zero_left n b ∙ λ i. zero_left' m b i
    where
      zero_left : (k c : ℕ) → digits (λ y. y) f k 0 c ≡ c
      zero_left zero c = refl
      zero_left (suc k) c = refl

      zero_left' : (k c : ℕ) → c ≡ digits (λ y. y) f k 0 c
      zero_left' zero c = refl
      zero_left' (suc k) c = refl
  enough_digits zero m (suc a) b p q = absurd (omega arith)
  enough_digits (suc n) zero (suc a) b p q = absurd (omega arith)
  enough_digits (suc n) (suc m) (suc a) b p q =
      ap (λ (t : ℕ). t * 2 + f (suc a % 2) (b % 2))
        (enough_digits n m (suc a / 2) (b / 2) (omega arith) (omega arith))

or_step : (a b : ℕ) → bit_or a b ≡ bit_or (a / 2) (b / 2) * 2 + max (a % 2) (b % 2)
or_step zero b = omega (arith, bit_or-bitwise 0 b, bit_or-bitwise 0 (b / 2))
or_step (suc a) b = omega (
  arith,
  bit_or-bitwise (suc a) b,
  bit_or-bitwise (suc a / 2) (b / 2),
  enough_digits max a (suc a / 2) (suc a / 2) (b / 2) (omega arith) (omega arith),
)

xor_step : (a b : ℕ) → bit_xor a b ≡ bit_xor (a / 2) (b / 2) * 2 + differ (a % 2) (b % 2)
xor_step zero b = omega (arith, bit_xor-bitwise 0 b, bit_xor-bitwise 0 (b / 2))
xor_step (suc a) b = omega (
  arith,
  bit_xor-bitwise (suc a) b,
  bit_xor-bitwise (suc a / 2) (b / 2),
  enough_digits differ a (suc a / 2) (suc a / 2) (b / 2) (omega arith) (omega arith),
)

differ_twice : (x y : ℕ) → x < 2 → y < 2 → (differ (differ x y) y ≡ x) × (differ x y < 2)
differ_twice zero zero p q = (refl, omega arith)
differ_twice zero (suc zero) p q = (refl, omega arith)
differ_twice (suc zero) zero p q = (refl, omega arith)
differ_twice (suc zero) (suc zero) p q = (refl, omega arith)
differ_twice zero (suc (suc y)) p q = absurd (omega arith)
differ_twice (suc zero) (suc (suc y)) p q = absurd (omega arith)
differ_twice (suc (suc x)) y p q = absurd (omega arith)

xor_cancel_below : (n a b : ℕ) → a ≤ n → b ≤ n → bit_xor (bit_xor a b) b ≡ a
xor_cancel_below zero zero zero p q = refl
xor_cancel_below zero zero (suc b) p q = absurd (omega arith)
xor_cancel_below zero (suc a) b p q = absurd (omega arith)
xor_cancel_below (suc n) a b p q =
    let (twice, small) = differ_twice (a % 2) (b % 2) (omega arith) (omega arith) in
    let c = bit_xor a b in
    let half : c / 2 ≡ bit_xor (a / 2) (b / 2) = omega (arith, xor_step a b) in
    let low : c % 2 ≡ differ (a % 2) (b % 2) = omega (arith, xor_step a b) in
    let ih = xor_cancel_below n (a / 2) (b / 2) (omega arith) (omega arith) in
    xor_step c b ∙ rw (half, low, ih, twice) (omega arith)

-- `^` undoes itself.
pub xor_cancel : (a b : ℕ) → bit_xor (bit_xor a b) b ≡ a
xor_cancel a b = xor_cancel_below (a + b) a b (omega arith) (omega arith)

or-zero_below : (n a : ℕ) → a ≤ n → bit_or a 0 ≡ a
or-zero_below zero zero p = refl
or-zero_below zero (suc a) p = absurd (omega arith)
or-zero_below (suc n) a p = omega (arith, or_step a 0, or-zero_below n (a / 2) (omega arith))

zero-or : (b : ℕ) → bit_or 0 b ≡ b
zero-or b = bit_or-bitwise 0 b

-- `a | (b << k)` is a sum where `a` fits in `k` bits.
pub or_disjoint : (k a b : ℕ) → a < 2 ^ k → bit_or a (b * 2 ^ k) ≡ a + b * 2 ^ k
or_disjoint zero zero b h = omega (arith, zero-or (b * 1))
or_disjoint zero (suc a) b h = absurd (omega arith)
or_disjoint (suc k) a b h =
    let e : b * 2 ^ suc k ≡ 2 * (b * 2 ^ k) = omega (arith, ap (λ (t : ℕ). b * t) (pow-suc 2 k)) in
    ground (arith, e, pow-suc 2 k, or_step a (b * 2 ^ suc k), or_disjoint k (a / 2) b)

differ-small : (x y : ℕ) → x < 2 → y < 2 → differ x y < 2
differ-small x y p q = (differ_twice x y p q).1

-- `^` stays in the bits of its numbers.
pub xor_fits : (k a b : ℕ) → a < 2 ^ k → b < 2 ^ k → bit_xor a b < 2 ^ k
xor_fits zero zero zero p q = omega arith
xor_fits zero (suc a) b p q = absurd (omega arith)
xor_fits zero zero (suc b) p q = absurd (omega arith)
xor_fits (suc k) a b p q = omega (
  arith,
  pow-suc 2 k,
  xor_step a b,
  differ-small (a % 2) (b % 2) (omega arith) (omega arith),
  xor_fits k (a / 2) (b / 2) (omega (arith, pow-suc 2 k)) (omega (arith, pow-suc 2 k)),
)
