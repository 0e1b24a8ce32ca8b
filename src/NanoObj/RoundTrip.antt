-- ===== src/NanoObj/RoundTrip.antt =====
-- What a key or a string becomes as an object, and when two such objects are equal.
use nano_redis.Prelude.{
  ◌%◌, ◌^◌, ◌≤◌, ◌<◌, true, false, some, Bytes, length, take, take_all, length-take, bytes_eq,
  bytes_eq_refl, bytes_eq→eq, leb, if◌then◌else◌, ◌↔◌, ◌⊎◌, ◌≡◌, ◌≢◌, sym, ap, ◌∙◌, arith,
  Bool-cases, Option-cases, inl, inr,
}
use nano_redis.Prelude.Int.{ℤ, eqb_ℤ}
use nano_redis.Util
use nano_redis.Util.{string2ll}
use nano_redis.Util.Canonical.{to_string-string2ll}
use nano_redis.NanoObj.{int_tag, inline_len, set_string, set_string_key, from_string, from_key}
use nano_redis.NanoObj.Ops.{to_string, get_string_view, obj_eq}

-- A string object shows its text cut to the 16 bits of the length.
pub get_string_view-from_string :
    (s : Bytes)
    → get_string_view (from_string s)
      ≡ (if leb (length s) inline_len then s else take (length s % 2 ^ 16) s)
unfolding get_string_view set_string
get_string_view-from_string s = ground arith

pub to_string-from_string : (s : Bytes) → length s < 2 ^ 16 → to_string (from_string s) ≡ s
unfolding to_string set_string
to_string-from_string s h = ground (arith, take_all (length s % 2 ^ 16) s)

-- A text of 64 KiB or more does not come back from `FromString` by `ToString`.
pub to_string-from_string_long : (s : Bytes) → 2 ^ 16 ≤ length s → to_string (from_string s) ≢ s
unfolding to_string set_string
to_string-from_string_long s h e =
    let n = length s % 2 ^ 16 in
    let cut : take n s ≡ s = ground arith in omega (arith, ap length cut, length-take n s)

-- The two forms of a key.
pub from_key-cases :
    (s : Bytes)
    → ((z : ℤ) × (string2ll s ≡ some z) × (from_key s ≡ int_tag z)) ⊎ (from_key s ≡ from_string s)
unfolding set_string_key
from_key-cases s = elim (Option-cases (string2ll s)) [
  | inl e ↦ inr (ground arith)
  | inr (z, e) ↦ elim (Bool-cases (leb (length s) 20)) [
    | inl fits ↦ inl (z, e, ground arith)
    | inr long ↦ inr (ground arith)
  ]
]

-- `ToString` gives back the text of less than 64 KiB that `FromKey` was given, also where it is
-- stored as a number.
pub to_string-from_key : (s : Bytes) → length s < 2 ^ 16 → to_string (from_key s) ≡ s
to_string-from_key s h = elim (from_key-cases s) [
  | inl (z, e, f) ↦ rw f (unfold to_string in (to_string-string2ll s z e).0)
  | inr f ↦ rw f (to_string-from_string s h)
]

eqb_ℤ→eq : (a b : ℤ) → eqb_ℤ a b ≡ true → a ≡ b
eqb_ℤ→eq a b h = ground arith

obj_eq-from_string :
    (s t : Bytes)
    → obj_eq (from_string s) (from_string t)
      ≡ bytes_eq (get_string_view (from_string s)) (get_string_view (from_string t))
unfolding obj_eq set_string
obj_eq-from_string s t = ground arith

obj_eq-int_string :
    (z : ℤ) (s : Bytes)
    → (obj_eq (int_tag z) (from_string s) ≡ false) × (obj_eq (from_string s) (int_tag z) ≡ false)
unfolding obj_eq set_string
obj_eq-int_string z s = (ground arith, ground arith)

pub view-from_string : (s : Bytes) → length s < 2 ^ 16 → get_string_view (from_string s) ≡ s
view-from_string s h = ground (arith, get_string_view-from_string s, take_all (length s % 2 ^ 16) s)

eq_of_obj_eq :
    (s t : Bytes)
    → length s < 2 ^ 16
    → length t < 2 ^ 16
    → obj_eq (from_key s) (from_key t) ≡ true
    → s ≡ t
eq_of_obj_eq s t hs ht h = elim (from_key-cases s) [
  | inl (z, e, f) ↦ elim (from_key-cases t) [
    | inl (w, e', f') ↦
        let same = eqb_ℤ→eq z w (unfold obj_eq in rw (f, f') at h) in
        sym (to_string-string2ll s z e).0 ∙ ap Util.to_string same ∙ (to_string-string2ll t w e').0
    | inr f' ↦ absurd (ground (arith, obj_eq-int_string z t))
  ]
  | inr f ↦ elim (from_key-cases t) [
    | inl (w, e', f') ↦ absurd (ground (arith, obj_eq-int_string w s))
    | inr f' ↦
        bytes_eq→eq s t
          (ground (arith, obj_eq-from_string s t, view-from_string s hs, view-from_string t ht))
  ]
]

obj_eq_refl : (s : Bytes) → obj_eq (from_key s) (from_key s) ≡ true
obj_eq_refl s = elim (from_key-cases s) [
  | inl (z, e, f) ↦ rw f (unfold obj_eq in ground arith)
  | inr f ↦ rw f (rw obj_eq-from_string (bytes_eq_refl (get_string_view (from_string s))))
]

-- For two texts of less than 64 KiB, the keys made of them are equal by `operator==` exactly if the
-- texts are the same, whichever of them are stored as numbers.
pub obj_eq-from_key :
    (s t : Bytes)
    → length s < 2 ^ 16
    → length t < 2 ^ 16
    → (obj_eq (from_key s) (from_key t) ≡ true) ↔ (s ≡ t)
obj_eq-from_key s t hs ht = (eq_of_obj_eq s t hs ht, λ e. rw e (obj_eq_refl t))
