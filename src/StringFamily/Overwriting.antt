-- ===== src/StringFamily/Overwriting.antt =====
-- The bytes that SETRANGE of src/command/string_family.cc makes.
use nano_redis.Prelude.{
  ℕ, zero, suc, ◌+◌, ◌-◌, ◌%◌, ◌^◌, ◌≤◌, ◌<◌, ◌≡◌, refl, ap, ◌∙◌, arith, false, Option, none, some,
  [], ◌∷◌, ◌++◌, Bytes, length, length-append, length-take, length-set, take, set, get_elem?, ltb,
  leb, ◌==◌, ◌&&◌, if◌then◌else◌,
}
use Prim.Native.Nat.{max}
use nano_redis.StringFamily.{zeros, resize, overwrite}
use nano_redis.StringFamily.Places.{written}

get-set :
    (s : Bytes) (i c j : ℕ)
    → get_elem? (set s i c) j ≡ (if j == i && ltb i (length s) then some c else get_elem? s j)
get-set [] i c j = ground arith
get-set (x ∷ s) zero c zero = ground arith
get-set (x ∷ s) zero c (suc j) = ground arith
get-set (x ∷ s) (suc i) c zero = ground arith
get-set (x ∷ s) (suc i) c (suc j) = ground (arith, get-set s i c j)

get-zeros : (n j : ℕ) → get_elem? (zeros n) j ≡ (if ltb j n then some 0 else none)
get-zeros zero j = ground arith
get-zeros (suc n) zero = ground arith
get-zeros (suc n) (suc j) = ground (arith, get-zeros n j)

length-zeros : (n : ℕ) → length (zeros n) ≡ n
length-zeros zero = refl
length-zeros (suc n) = omega (arith, length-zeros n)

get-append :
    (s t : Bytes) (j : ℕ)
    → get_elem? (s ++ t) j
      ≡ (if ltb j (length s) then get_elem? s j else get_elem? t (j - length s))
get-append [] t j = ground arith
get-append (x ∷ s) t zero = ground arith
get-append (x ∷ s) t (suc j) = ground (arith, get-append s t j)

get-take : (n : ℕ) (s : Bytes) (j : ℕ) → j < n → get_elem? (take n s) j ≡ get_elem? s j
get-take zero s j h = absurd (omega arith)
get-take (suc n) [] j h = refl
get-take (suc n) (x ∷ s) zero h = refl
get-take (suc n) (x ∷ s) (suc j) h = get-take n s j (omega arith)

length-overwrite :
    (s : Bytes) (offset : ℕ) (value : Bytes) → length (overwrite s offset value) ≡ length s
unfolding overwrite
length-overwrite s offset [] = refl
length-overwrite s offset (c ∷ value) =
    length-overwrite (set s offset c) (offset + 1) value ∙ length-set s offset c

get-first : (c : ℕ) (value : Bytes) (n : ℕ) → n ≡ 0 → get_elem? (c ∷ value) n ≡ some c
get-first c value zero e = refl
get-first c value (suc n) e = absurd (omega arith)

get-later :
    (c : ℕ) (value : Bytes) (n m : ℕ) → n ≡ suc m → get_elem? (c ∷ value) n ≡ get_elem? value m
get-later c value n m e = ap (get_elem? (c ∷ value)) e

get-overwrite :
    (s : Bytes) (offset : ℕ) (value : Bytes) (j : ℕ)
    → get_elem? (overwrite s offset value) j ≡ (
        if leb offset j && ltb j (offset + length value) && ltb j (length s)
        then get_elem? value (j - offset)
        else get_elem? s j)
unfolding overwrite
get-overwrite s offset [] j = ground arith
get-overwrite s offset (c ∷ value) j = ground (
  arith,
  get-overwrite (set s offset c) (offset + 1) value j,
  get-set s offset c j,
  length-set s offset c,
  get-first c value (j - offset),
  get-later c value (j - offset) (j - (offset + 1)),
)

length-resize : (s : Bytes) (n : ℕ) → length (resize s n) ≡ n
unfolding resize
length-resize s n =
    length-take n (s ++ zeros (n - length s))
    ∙ omega (arith, length-append s (zeros (n - length s)), length-zeros (n - length s))

get-resize :
    (s : Bytes) (n j : ℕ)
    → j < n
    → get_elem? (resize s n) j ≡ (if ltb j (length s) then get_elem? s j else some 0)
unfolding resize
get-resize s n j h =
    get-take n (s ++ zeros (n - length s)) j h
    ∙ ground (arith, get-append s (zeros (n - length s)) j, get-zeros (n - length s) (j - length s))

-- Byte `j` of what SETRANGE stores.
abbrev pub byte_at : Bytes → ℕ → Bytes → ℕ → Option ℕ
byte_at s offset value j =
    if leb offset j && ltb j (offset + length value)
    then get_elem? value (j - offset)
    else if ltb j (length s)
    then get_elem? s j
    else some 0

-- Where the text that SETRANGE makes is no longer than a string can be, it is as long as the old text
-- or as the offset and the value together, whichever is more; the bytes of the value stand from the
-- offset on, and the others are those of the old text and zero behind it.
pub written_lem :
    (capacity : ℕ) (s : Bytes) (offset : ℕ) (value : Bytes)
    → max (length s) (offset + length value) ≤ capacity
    → capacity < 2 ^ 64
    → (t : Bytes) × (written capacity s offset value ≡ some t)
      × (length t ≡ max (length s) (offset + length value))
      × ((j : ℕ) → j < length t → get_elem? t j ≡ byte_at s offset value j)
unfolding written
written_lem capacity s offset value h small =
    let size = max (length s) (offset + length value) in
    let no_wrap : (offset + length value) % 2 ^ 64 ≡ offset + length value =
      omega (arith, h, small) in
    let fits : ltb capacity size ≡ false = ground (arith, h) in
    let t = overwrite (resize s size) offset value in
    let len : length t ≡ size =
      length-overwrite (resize s size) offset value ∙ length-resize s size in
    (
      t,
      rw (no_wrap, fits) refl,
      len,
      λ j l. ground (
        arith,
        len,
        length-resize s size,
        get-overwrite (resize s size) offset value j,
        get-resize s size j (omega (arith, l, len)),
      ),
    )
