-- ===== src/HashFamily/Changing.antt =====
-- HSET, HDEL, HINCRBY and HRANDFIELD of src/command/hash_family.cc on a key under which a hash can be
-- seen.
use nano_redis.Prelude.{
  ℕ, ◌%◌, ◌≡◌, refl, ap, ◌∙◌, sym, true, Option, none, some, List, [], ◌∷◌, ◌++◌, Bytes, bytes_eq,
  length, ◌==◌, if◌then◌else◌,
}
use mathlib.Core.Path.{subst}
use nano_redis.Prelude.Int.{ℤ, pos, ◌+ℤ◌}
use nano_redis.Util
use nano_redis.NanoObj.{NanoObj}
use nano_redis.NanoObj.Ops.{is_hash, to_string}
use nano_redis.Resp.{make_integer, make_array, make_bulk_string, make_null_bulk_string, ok_response}
use nano_redis.Database.{Database}
use nano_redis.Database.Interface.{Table}
use nano_redis.Database.Expiry.{find}
use nano_redis.Database.View.{entry}
use nano_redis.ListFamily.{parse_long_long}
use nano_redis.ListFamily.Handlers.{Clock, Out, reply, no_pointer, count_of}
use nano_redis.ListFamily.Changes.{Changed, find_seen, entry-assign}
use nano_redis.StringFamily.{wrap64}
use nano_redis.SetFamily.{bulk_members}
use nano_redis.SetFamily.Interface.{contains}
use nano_redis.SetFamily.Members.{named}
use nano_redis.HashFamily.{
  Hash, Hashes, lookup, hash_of, with_hash, stoll, assign_all, erase_fields, draw_fields,
}
use nano_redis.HashFamily.Handlers.{
  on_hash, found_hash, fresh_hash, write_hash, assign_to, delete_from, add_to_field, add_to_value,
  incr_field, random_fields, take_fields, wrong_type, h_set, h_del, h_incr_by, h_rand_field,
}
use nano_redis.HashFamily.Fields.{
  last_value, lookup-assign_all, lookup-erase_fields, lookup-draw_fields,
}

module _ {T : Table NanoObj} {E : Table ℤ} where
  -- Under the key a hash can be seen, in the object `obj` with the deadline `at`.
  pub record HoldsHash (now : ℤ) (key obj : NanoObj) (at : Option ℤ) (h : Hash) (d : Database T E)
      : Type 0 where
    pub seen : entry now d.current_db key d ≡ some (obj, at)
    pub is_a_hash : is_hash obj ≡ true
    pub hash : hash_of obj ≡ some h

  -- A handler that finds the hash and writes it.
  written-Changed :
      (now : ℤ) (key obj : NanoObj) (at : Option ℤ) (h new : Hash) (r : Bytes) (d : Database T E)
      (other : Database T E → Out T E) (f : NanoObj → Hash → Database T E → Out T E)
      → HoldsHash now key obj at h d
      → f obj h d ≡ (write_hash key obj new d, some r)
      → Changed now key (some (with_hash obj new, at)) r d (found_hash key now d other f)
  written-Changed now key obj at h new r d other f holds run =
      subst (λ (out : Out T E). Changed now key (some (with_hash obj new, at)) r d out)
        (sym (found ∙ run))
        (record {
          replies = refl;
          writes = λ j q. entry-assign now key obj at (with_hash obj new) d j q holds.seen;
        })
    where
      found : found_hash key now d other f ≡ f obj h d
      found =
          ap (λ o. on_hash o.1 other f o.0) (find_seen now key obj at d holds.seen)
          ∙ rw (holds.is_a_hash, holds.hash) refl

  module _ (c : Hashes) where
    -- HSET with one or more pairs on a key under which a hash can be seen: the reply is OK, and
    -- the key has a hash, with the deadline from before, that gives each field the value of the
    -- last pair with it, or the value from before where there is none; every other entry of every
    -- database is as before.
    pub h_set-Changed :
        (name key field value obj : NanoObj) (args : List NanoObj) (h : Hash) (at : Option ℤ)
        (clock : Clock) (d : Database T E)
        → (length args % 2 == 0) ≡ true
        → HoldsHash (clock 0) key obj at h d
        → (let new = assign_all c (field ∷ value ∷ args) h in
            Changed
              (clock 0)
              key
              (some (with_hash obj new, at))
              ok_response
              d
              (h_set c (name ∷ key ∷ field ∷ value ∷ args) clock d)
            × ((g : Bytes) → lookup new g ≡ last_value (field ∷ value ∷ args) g (lookup h g)))
    unfolding h_set
    h_set-Changed name key field value obj args h at clock d even holds = rw even (
        let l = field ∷ value ∷ args in
        let f = assign_to c key l in
        let other = λ (e : Database T E).
          found_hash key (clock 2) (fresh_hash key (clock 1) (find key (clock 0) d).1 e) no_pointer
            f in
        (
          written-Changed (clock 0) key obj at h (assign_all c l h) ok_response d other f holds
              refl,
          lookup-assign_all c l h,
        ))

    -- HDEL of one or more fields on a key under which a hash can be seen: the key has a hash, be it
    -- empty, with the deadline from before, that has none of the fields and the others as before;
    -- every other entry of every database is as before.
    pub h_del-Changed :
        (name key arg obj : NanoObj) (args : List NanoObj) (h : Hash) (at : Option ℤ)
        (clock : Clock) (d : Database T E)
        → HoldsHash (clock 0) key obj at h d
        → (let (new, deleted) = erase_fields c (arg ∷ args) h in
            Changed
              (clock 0)
              key
              (some (with_hash obj new, at))
              (make_integer (pos deleted))
              d
              (h_del c (name ∷ key ∷ arg ∷ args) clock d)
            × ((g : Bytes) → lookup new g ≡ (if named (arg ∷ args) g then none else lookup h g)))
    unfolding h_del
    h_del-Changed name key arg obj args h at clock d holds =
        let l = arg ∷ args in
        let out = erase_fields c l h in
        (
          written-Changed (clock 0) key obj at h out.0 (make_integer (pos out.1)) d
              (reply (make_integer (pos 0))) (delete_from c key l) holds refl,
          lookup-erase_fields c l h,
        )

    -- HINCRBY with a number that `ParseLongLong` reads, of a field that has a text that `stoll`
    -- reads, in a hash that can be seen under the key: the reply is the sum in 64 bits with sign,
    -- the key has a hash, with the deadline from before, in which the field has that number and
    -- the other fields are as before, and every other entry of every database is as before.
    pub h_incr_by-Changed :
        (name key field by obj : NanoObj) (h : Hash) (s : Bytes) (m n : ℤ) (at : Option ℤ)
        (clock : Clock) (d : Database T E)
        → parse_long_long (to_string by) ≡ some n
        → lookup h (to_string field) ≡ some s
        → stoll s ≡ some m
        → HoldsHash (clock 0) key obj at h d
        → (let sum = Util.to_string (wrap64 (m +ℤ n)) in
            let new = c.assign h (to_string field) sum in
            Changed
              (clock 0)
              key
              (some (with_hash obj new, at))
              (make_bulk_string sum)
              d
              (h_incr_by c (name ∷ key ∷ field ∷ by ∷ []) clock d)
            × ((g : Bytes)
                → lookup new g ≡ (if bytes_eq (to_string field) g then some sum else lookup h g)))
    unfolding h_incr_by
    h_incr_by-Changed name key field by obj h s m n at clock d e here number holds =
        let f = to_string field in
        let sum = Util.to_string (wrap64 (m +ℤ n)) in
        (
          written-Changed (clock 0) key obj at h (c.assign h f sum) (make_bulk_string sum) d
              (reply wrong_type) (incr_field c key f (parse_long_long (to_string by))) holds
              (ap (λ (o : Option ℤ). incr_field c key f o obj h d) e
                ∙ ap (λ (o : Option Bytes). add_to_field c key obj h f n o d) here
                ∙ ap (λ (o : Option ℤ). add_to_value c key obj h f n o d) number),
          c.lookup-assign h f sum,
        )

    -- HRANDFIELD with a count that it takes, on a key under which a hash with fields can be seen:
    -- the fields of the reply are gone from the hash under the key, which has the others as
    -- before and the deadline from before; every other entry of every database is as before.
    pub h_rand_field-Changed :
        (rand : ℕ → ℕ) (name key count obj : NanoObj) (n : ℕ) (p : Bytes × Bytes) (h : Hash)
        (at : Option ℤ) (clock : Clock) (d : Database T E)
        → count_of (count ∷ []) ≡ some n
        → HoldsHash (clock 0) key obj at (p ∷ h) d
        → (let (shown, left) = draw_fields c n rand (p ∷ h) in
            Changed
              (clock 0)
              key
              (some (with_hash obj left, at))
              (make_array (pos n) ++ bulk_members shown)
              d
              (h_rand_field c rand (name ∷ key ∷ count ∷ []) clock d)
            × ((g : Bytes) → lookup left g ≡ (if contains shown g then none else lookup (p ∷ h) g)))
    unfolding h_rand_field
    h_rand_field-Changed rand name key count obj n p h at clock d e holds =
        let out = draw_fields c n rand (p ∷ h) in
        (
          written-Changed (clock 0) key obj at (p ∷ h) out.1
              (make_array (pos n) ++ bulk_members out.0) d (reply make_null_bulk_string)
              (random_fields c key rand (count ∷ [])) holds
              (ap (λ (o : Option ℕ). take_fields c key rand o obj (p ∷ h) d) e),
          lookup-draw_fields c n rand (p ∷ h),
        )
