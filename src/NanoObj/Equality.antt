-- ===== src/NanoObj/Equality.antt =====
-- `operator==` of src/core/nano_obj.cc as a comparison of values.
use nano_redis.Prelude.{
  take, ◌≡◌, refl, ap, sym, arith, true, Option, none, some, Bytes, bytes_eq_refl, bytes_eq→eq,
}
use nano_redis.Prelude.Int.{ℤ}
use nano_redis.NanoObj.{NanoObj, inline_str, int_tag, small_str, robj, null_tag}
use nano_redis.NanoObj.Ops.{obj_eq}

-- What is compared.
pub data Value : Type 0 where
  number : ℤ → Value
  text : Bytes → Value

abbrev pub compared : NanoObj → Option Value
compared (inline_str s) = some (text s)
compared (int_tag z) = some (number z)
compared (small_str n p b) = some (text (take n b))
compared _ = none

-- Equal objects show the same value.
pub compared_of_obj_eq :
    (a b : NanoObj)
    → obj_eq a b ≡ true
    → (v : Value) × (compared a ≡ some v) × (compared b ≡ some v)
unfolding obj_eq
compared_of_obj_eq (inline_str s) (inline_str t) h =
    (text s, refl, ap (λ u. some (text u)) (sym (bytes_eq→eq s t h)))
compared_of_obj_eq (inline_str s) (small_str n p b) h =
    (text s, refl, ap (λ u. some (text u)) (sym (bytes_eq→eq s (take n b) h)))
compared_of_obj_eq (inline_str s) _ h = absurd (ground arith)
compared_of_obj_eq (small_str n p b) (inline_str t) h =
    (text (take n b), refl, ap (λ u. some (text u)) (sym (bytes_eq→eq (take n b) t h)))
compared_of_obj_eq (small_str n p b) (small_str m q c) h =
    (text (take n b), refl, ap (λ u. some (text u)) (sym (bytes_eq→eq (take n b) (take m c) h)))
compared_of_obj_eq (small_str n p b) _ h = absurd (ground arith)
compared_of_obj_eq (int_tag z) (int_tag w) h = (number z, refl, ground arith)
compared_of_obj_eq (int_tag z) _ h = absurd (ground arith)
compared_of_obj_eq (robj t e n i) _ h = absurd (ground arith)
compared_of_obj_eq null_tag _ h = absurd (ground arith)

obj_eq_of_text :
    (a b : NanoObj) (s : Bytes)
    → compared a ≡ some (text s)
    → compared b ≡ some (text s)
    → obj_eq a b ≡ true
unfolding obj_eq
obj_eq_of_text (inline_str s) (inline_str t) u p q = ground (arith, bytes_eq_refl u)
obj_eq_of_text (inline_str s) (small_str n l b) u p q = ground (arith, bytes_eq_refl u)
obj_eq_of_text (small_str n l b) (inline_str t) u p q = ground (arith, bytes_eq_refl u)
obj_eq_of_text (small_str n l b) (small_str m k c) u p q = ground (arith, bytes_eq_refl u)
obj_eq_of_text (inline_str s) _ u p q = absurd (ground arith)
obj_eq_of_text (small_str n l b) _ u p q = absurd (ground arith)
obj_eq_of_text _ b u p q = absurd (ground arith)

obj_eq_of_number :
    (a b : NanoObj) (z : ℤ)
    → compared a ≡ some (number z)
    → compared b ≡ some (number z)
    → obj_eq a b ≡ true
unfolding obj_eq
obj_eq_of_number (int_tag z) (int_tag w) u p q = ground arith
obj_eq_of_number (int_tag z) _ u p q = absurd (ground arith)
obj_eq_of_number _ b u p q = absurd (ground arith)

-- Objects that show the same value are equal.
pub obj_eq_of_compared :
    (a b : NanoObj) (v : Value) → compared a ≡ some v → compared b ≡ some v → obj_eq a b ≡ true
obj_eq_of_compared a b (number z) p q = obj_eq_of_number a b z p q
obj_eq_of_compared a b (text s) p q = obj_eq_of_text a b s p q

-- `operator==` is symmetric.
pub obj_eq_symm : (a b : NanoObj) → obj_eq a b ≡ true → obj_eq b a ≡ true
obj_eq_symm a b h = let (v, p, q) = compared_of_obj_eq a b h in obj_eq_of_compared b a v q p

-- `operator==` is transitive.
pub obj_eq_trans : (a b c : NanoObj) → obj_eq a b ≡ true → obj_eq b c ≡ true → obj_eq a c ≡ true
obj_eq_trans a b c h k =
    let (v, p, q) = compared_of_obj_eq a b h in
    let (w, r, s) = compared_of_obj_eq b c k in obj_eq_of_compared a c v p (ground arith)
