-- ===== src/NanoObj/Buffer.antt =====
-- The buffer that the parser fills: `PrepareStringBuffer`, `memcpy`, `FinalizePreparedString` and
-- `MaybeConvertToInt`; copies, and the well-formed objects.
use nano_redis.Prelude.{
  ◌%◌, ◌^◌, ◌≤◌, ◌<◌, Bool, true, false, [], ◌∷◌, ◌++◌, Bytes, length, take, take_all, length-take,
  leb, ◌≡◌, refl, ap, ◌∙◌, arith, Bool-cases, Option-cases, inl, inr, append_assoc,
}
use nano_redis.Prelude.Int.{IsInt64}
use nano_redis.Util.{string2ll}
use nano_redis.Util.Canonical.{to_string-string2ll}
use nano_redis.NanoObj.{
  NanoObj, inline_str, int_tag, small_str, robj, null_tag, inline_len, set_string, set_string_key,
  from_string, from_key,
}
use nano_redis.NanoObj.RoundTrip.{from_key-cases, view-from_string}
use nano_redis.NanoObj.Ops.{
  to_string, get_string_view, size, copy_from, prepare_string_buffer, write_buffer,
  finalize_prepared_string, maybe_convert_to_int,
}

-- What the parser keeps of a bulk string that it has read whole.
abbrev pub stored_bulk : Bytes → NanoObj
stored_bulk s =
    (maybe_convert_to_int
      (finalize_prepared_string (write_buffer (prepare_string_buffer (length s)) s))).0

pub write_buffer-append :
    (o : NanoObj) (s t : Bytes) → write_buffer (write_buffer o s) t ≡ write_buffer o (s ++ t)
unfolding write_buffer
write_buffer-append (inline_str d) s t = rw append_assoc
write_buffer-append (small_str n p b) s t = rw append_assoc
write_buffer-append _ s t = refl

-- Filled and finished, the buffer is the string object.
prepared-eq-from_string :
    (s : Bytes)
    → length s < 2 ^ 16
    → finalize_prepared_string (write_buffer (prepare_string_buffer (length s)) s) ≡ from_string s
unfolding finalize_prepared_string write_buffer prepare_string_buffer set_string
prepared-eq-from_string s h = elim (Bool-cases (leb (length s) 14)) [
  | inl short ↦ rw short refl
  | inr long ↦ rw long (ground arith)
]

convert-from_string :
    (s : Bytes) → length s < 2 ^ 16 → (maybe_convert_to_int (from_string s)).0 ≡ from_key s
unfolding maybe_convert_to_int set_string_key
convert-from_string [] h = unfold set_string string2ll in refl
convert-from_string (c ∷ s) h =
    let view : get_string_view (from_string (c ∷ s)) ≡ c ∷ s = view-from_string (c ∷ s) h in
    elim (Option-cases (string2ll (c ∷ s))) [
      | inl e ↦ rw (view, e) (ground arith)
      | inr (z, e) ↦ rw (view, e) (ground arith)
    ]

-- The parser's way to make an object (prepare a buffer, fill it, finish it, convert it to a number
-- where it spells one) makes of a text of less than 64 KiB the same object as `FromKey`.
pub stored_bulk-eq-from_key : (s : Bytes) → length s < 2 ^ 16 → stored_bulk s ≡ from_key s
stored_bulk-eq-from_key s h =
    ap (λ o. (maybe_convert_to_int o).0) (prepared-eq-from_string s h) ∙ convert-from_string s h

abbrev pub is_container : NanoObj → Bool
is_container (robj t e n i) = true
is_container _ = false

-- A well-formed object. (Where the length has wrapped, the buffer is longer than the length says.)
abbrev pub IsValid : NanoObj → Type 0
IsValid (inline_str s) = length s ≤ inline_len
IsValid (int_tag z) = IsInt64 z
IsValid (small_str n p b) = n ≡ length b % 2 ^ 16
IsValid _ = Unit

from_string-IsValid : (s : Bytes) → IsValid (from_string s)
unfolding set_string
from_string-IsValid s = elim (Bool-cases (leb (length s) 14)) [
  | inl short ↦ rw short (ground arith)
  | inr long ↦ rw long refl
]

pub from_key-IsValid : (s : Bytes) → IsValid (from_key s)
from_key-IsValid s = elim (from_key-cases s) [
  | inl (z, e, f) ↦ rw f (to_string-string2ll s z e).1
  | inr f ↦ rw f (from_string-IsValid s)
]

-- A copy of a well-formed object is well-formed: an inline text fits, a number has 64 bits, a small
-- string's length is that of its buffer.
pub copy_from-IsValid : (o : NanoObj) → IsValid o → IsValid (copy_from o)
unfolding copy_from
copy_from-IsValid (inline_str s) v = v
copy_from-IsValid (int_tag z) v = v
copy_from-IsValid (small_str n p b) v = omega (arith, length-take n b)
copy_from-IsValid (robj t e n i) v = tt
copy_from-IsValid null_tag v = tt

-- A copy of a well-formed object shows the same text.
pub to_string-copy_from : (o : NanoObj) → IsValid o → to_string (copy_from o) ≡ to_string o
unfolding copy_from to_string
to_string-copy_from (small_str n p b) v = take_all n (take n b) (omega (arith, length-take n b))
to_string-copy_from _ v = refl

-- `Size` of a well-formed object that is no container is the length of its text.
pub size-to_string :
    (o : NanoObj) → IsValid o → is_container o ≡ false → size o ≡ length (to_string o)
unfolding size to_string
size-to_string (small_str n p b) v h = omega (arith, length-take n b)
size-to_string (robj t e n i) v h = cc
size-to_string _ v h = refl
