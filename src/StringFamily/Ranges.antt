-- ===== src/StringFamily/Ranges.antt =====
-- GETRANGE and SETRANGE of src/command/string_family.cc.
use nano_redis.Prelude.{
  ℕ, suc, ◌-◌, ◌≤◌, ◌<◌, ◌≡◌, refl, ap, ◌∙◌, arith, Bool, true, false, Option, none, some, [], ◌∷◌,
  Bytes, length, take, drop, min, ltb, if◌then◌else◌, Bool-cases, inl, inr,
}
use nano_redis.Prelude.Int.{ℤ, pos, negsuc, int64_max, ltb_ℤ, ◌+ℤ◌, ◌-ℤ◌}
use nano_redis.NanoObj.{NanoObj}
use nano_redis.NanoObj.Ops.{to_string}
use nano_redis.Resp.{make_bulk_string}
use nano_redis.Database.{Database}
use nano_redis.Database.Interface.{Table}
use nano_redis.Database.View.{entry}
use nano_redis.ListFamily.Handlers.{Clock}
use nano_redis.StringFamily.{parse_int, adjust_index, to_size, substr}
use nano_redis.StringFamily.Places.{cut_at, cut, range_of, bulk_of, get_between, get_range}
use nano_redis.StringFamily.Handlers.{by_number}
use nano_redis.StringFamily.Reads.{get_seen}

-- Where an index points in a string of `size` bytes: from its end where it is negative, and to the
-- first or the last byte where it is out of the string.
abbrev pub place : ℤ → ℕ → ℕ
place (pos n) size = min n (size - 1)
place (negsuc n) size = size - suc n

adjust_index_lem : (z : ℤ) (size : ℕ) → 0 < size → adjust_index z (pos size) ≡ pos (place z size)
unfolding adjust_index
adjust_index_lem (pos n) size h = ground arith
adjust_index_lem (negsuc n) size h = ground arith

place-lt : (z : ℤ) (size : ℕ) → 0 < size → place z size < size
place-lt (pos n) size h = omega arith
place-lt (negsuc n) size h = omega arith

-- The bytes from one place to the other.
abbrev pub between : Bytes → ℤ → ℤ → Bytes
between s start end =
    take (suc (place end (length s)) - place start (length s)) (drop (place start (length s)) s)

size_between : (a c : ℕ) → a ≤ c → c < int64_max → to_size (pos c -ℤ pos a +ℤ pos 1) ≡ suc c - a
size_between a c h small =
    let first : pos c -ℤ pos a ≡ pos (c - a) = ground (arith, h) in
    let second : pos (c - a) +ℤ pos 1 ≡ pos (suc c - a) = ground (arith, h) in
    ap (λ (z : ℤ). to_size (z +ℤ pos 1)) first ∙ ap to_size second ∙ omega arith

cut_at_lem :
    (s : Bytes) (a c : ℕ)
    → a < length s
    → c < length s
    → length s ≤ int64_max
    → cut_at s (pos a) (pos c) ≡ some (take (suc c - a) (drop a s))
unfolding substr
cut_at_lem s a c h h' small = elim (Bool-cases (ltb c a)) [
  | inl e ↦
      let test : ltb_ℤ (pos c) (pos a) ≡ true = ground (arith, e) in
      let none_left : suc c - a ≡ 0 = ground (arith, e) in rw (test, none_left) refl
  | inr e ↦
      let test : ltb_ℤ (pos c) (pos a) ≡ false = ground (arith, e) in
      let at : to_size (pos a) ≡ a = omega arith in
      let inside : ltb (length s) a ≡ false = ground (arith, h) in
      ap
        (λ (b : Bool).
          if b then some [] else substr s (to_size (pos a)) (to_size (pos c -ℤ pos a +ℤ pos 1)))
        test
      ∙ ap (λ (n : ℕ). substr s (to_size (pos a)) n)
          (size_between a c (ground (arith, e)) (omega arith))
      ∙ ap (λ (n : ℕ). substr s n (suc c - a)) at
      ∙ ap (λ (b : Bool). if b then none else some (take (suc c - a) (drop a s))) inside
]

cut-between :
    (s : Bytes) (start end : ℤ)
    → 0 < length s
    → length s ≤ int64_max
    → cut s start end ≡ some (between s start end)
unfolding cut
cut-between s start end h small =
    (λ i. cut_at s (adjust_index_lem start (length s) h i) (adjust_index_lem end (length s) h i))
    ∙ cut_at_lem s (place start (length s)) (place end (length s)) (place-lt start (length s) h)
        (place-lt end (length s) h) small

adjust_index_nowhere : (z : ℤ) → adjust_index z (pos 0) ≡ negsuc 0
unfolding adjust_index
adjust_index_nowhere (pos n) = ground arith
adjust_index_nowhere (negsuc n) = ground arith

cut-empty : (start end : ℤ) → cut [] start end ≡ none
unfolding cut substr
cut-empty start end = λ i. cut_at [] (adjust_index_nowhere start i) (adjust_index_nowhere end i)

module _ {T : Table NanoObj} {E : Table ℤ} where
  get_range_seen :
      (clock : Clock) (name key first last obj : NanoObj) (at : Option ℤ) (start end : ℤ)
      (d : Database T E)
      → parse_int (to_string first) ≡ some start
      → parse_int (to_string last) ≡ some end
      → entry (clock 0) d.current_db key d ≡ some (obj, at)
      → get_range (name ∷ key ∷ first ∷ last ∷ []) clock d
        ≡ (d, bulk_of (cut (to_string obj) start end))
  unfolding get_range range_of
  get_range_seen clock name key first last obj at start end d p q h =
      ap
        (λ (o : Option ℤ).
          by_number o
            (λ first.
              by_number (parse_int (to_string last)) (λ last. get_between key clock first last))
            d)
        p
      ∙ ap (λ (o : Option ℤ). by_number o (λ last. get_between key clock start last) d) q
      ∙ ap (λ (o : Database T E × Option Bytes). (o.0, bulk_of (range_of o.1 start end)))
          (get_seen (clock 0) key obj at d h)

  -- GETRANGE with two numbers that `ParseInt` reads, on a key under which a text of at least one
  -- and at most 2^63 - 1 bytes can be seen: the reply is the bytes from the place of the first to
  -- that of the second, where a negative number counts from the end and a place outside the text is
  -- its first or last byte; the database is as before.
  pub get_range_lem :
      (clock : Clock) (name key first last obj : NanoObj) (at : Option ℤ) (start end : ℤ)
      (d : Database T E)
      → parse_int (to_string first) ≡ some start
      → parse_int (to_string last) ≡ some end
      → entry (clock 0) d.current_db key d ≡ some (obj, at)
      → 0 < length (to_string obj)
      → length (to_string obj) ≤ int64_max
      → get_range (name ∷ key ∷ first ∷ last ∷ []) clock d
        ≡ (d, some (make_bulk_string (between (to_string obj) start end)))
  get_range_lem clock name key first last obj at start end d p q h full small =
      get_range_seen clock name key first last obj at start end d p q h
      ∙ ap (λ (o : Option Bytes). (d, bulk_of o)) (cut-between (to_string obj) start end full small)

  -- GETRANGE with two numbers that `ParseInt` reads, on a key under which the empty text can be
  -- seen, throws an exception, whatever the numbers are.
  pub get_range_throws :
      (clock : Clock) (name key first last obj : NanoObj) (at : Option ℤ) (start end : ℤ)
      (d : Database T E)
      → parse_int (to_string first) ≡ some start
      → parse_int (to_string last) ≡ some end
      → entry (clock 0) d.current_db key d ≡ some (obj, at)
      → to_string obj ≡ []
      → get_range (name ∷ key ∷ first ∷ last ∷ []) clock d ≡ (d, none)
  get_range_throws clock name key first last obj at start end d p q h empty =
      get_range_seen clock name key first last obj at start end d p q h
      ∙ ap (λ (s : Bytes). (d, bulk_of (cut s start end))) empty
      ∙ ap (λ (o : Option Bytes). (d, bulk_of o)) (cut-empty start end)
