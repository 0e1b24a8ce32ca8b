-- ===== src/SetFamily/Changing.antt =====
-- SADD, SREM and SPOP of src/command/set_family.cc on a key under which a set can be seen.
use nano_redis.Prelude.{
  ℕ, ◌+◌, ◌≡◌, refl, ap, ◌∙◌, sym, arith, true, not, ◌&&◌, ◌||◌, Option, none, some, List, [], ◌∷◌,
  Bytes, length, is_empty, if◌then◌else◌,
}
use mathlib.Core.Path.{subst}
use nano_redis.Prelude.Int.{ℤ, pos}
use nano_redis.NanoObj.{NanoObj}
use nano_redis.NanoObj.Ops.{is_set}
use nano_redis.Resp.{make_integer}
use nano_redis.Database.{Database, assign}
use nano_redis.Database.Interface.{Table}
use nano_redis.Database.Expiry.{find}
use nano_redis.Database.View.{entry}
use nano_redis.Database.Methods.{del-Updates}
use nano_redis.ListFamily.Handlers.{Clock, Out, reply, no_pointer}
use nano_redis.ListFamily.Changes.{Changed, find_seen, entry-assign}
use nano_redis.SetFamily.{set_of, with_set, insert_all, erase_all}
use nano_redis.SetFamily.Interface.{Sets, contains, is_distinct}
use nano_redis.SetFamily.Handlers.{
  on_set, found_set, fresh_set, write_set, keep_set, add_to, remove_from, s_add, s_rem,
}
use nano_redis.SetFamily.Members.{
  named, insert_all-contains, length-insert_all, erase_all-contains, length-erase_all,
}

-- What is to be seen of a set object whose set is changed.
abbrev pub left_entry : NanoObj → Option ℤ → List Bytes → Option (NanoObj × Option ℤ)
left_entry obj at s = if is_empty s then none else some (with_set obj s, at)

module _ {T : Table NanoObj} {E : Table ℤ} where
  -- Under the key a set can be seen, in the object `obj` with the deadline `at`.
  pub record HoldsSet (now : ℤ) (key obj : NanoObj) (at : Option ℤ) (s : List Bytes)
      (d : Database T E) : Type 0 where
    pub seen : entry now d.current_db key d ≡ some (obj, at)
    pub is_a_set : is_set obj ≡ true
    pub set : set_of obj ≡ some s

  found_set_seen :
      (now : ℤ) (key obj : NanoObj) (at : Option ℤ) (s : List Bytes) (d : Database T E)
      (other : Database T E → Out T E) (f : NanoObj → List Bytes → Database T E → Out T E)
      → HoldsSet now key obj at s d
      → found_set key now d other f ≡ f obj s d
  found_set_seen now key obj at s d other f h =
      ap (λ o. on_set o.1 other f o.0) (find_seen now key obj at d h.seen)
      ∙ rw (h.is_a_set, h.set) refl

  write_set-Changed :
      (now : ℤ) (key obj : NanoObj) (at : Option ℤ) (s new : List Bytes) (r : Bytes)
      (d : Database T E)
      → HoldsSet now key obj at s d
      → Changed now key (some (with_set obj new, at)) r d (write_set key obj new d, some r)
  write_set-Changed now key obj at s new r d h = record {
    replies = refl;
    writes = λ j q. entry-assign now key obj at (with_set obj new) d j q h.seen;
  }

  keep_set-Changed :
      (now : ℤ) (key obj : NanoObj) (at : Option ℤ) (s new : List Bytes) (r : Bytes)
      (d : Database T E)
      → HoldsSet now key obj at s d
      → Changed now key (left_entry obj at new) r d (keep_set key now obj new d, some r)
  unfolding assign
  keep_set-Changed now key obj at s [] r d h = record {
    replies = refl;
    writes = λ j q.
        (del-Updates key now (write_set key obj [] d)).writes j q
        ∙ ground (arith, entry-assign now key obj at (with_set obj []) d j q h.seen);
  }
  keep_set-Changed now key obj at s (m ∷ new) r d h =
      write_set-Changed now key obj at s (m ∷ new) r d h

  module _ (c : Sets) where
    -- SADD of one or more arguments on a key under which a set can be seen: the key has a set of
    -- what was in it and the arguments, with the deadline from before; the reply is the number of
    -- members by which the set has grown, and every other entry of every database is as before.
    pub s_add-Changed :
        (name key arg obj : NanoObj) (args : List NanoObj) (s : List Bytes) (at : Option ℤ)
        (clock : Clock) (d : Database T E)
        → HoldsSet (clock 0) key obj at s d
        → (let (new, added) = insert_all c (arg ∷ args) s in
            Changed
              (clock 0)
              key
              (some (with_set obj new, at))
              (make_integer (pos added))
              d
              (s_add c (name ∷ key ∷ arg ∷ args) clock d)
            × ((x : Bytes) → contains new x ≡ (named (arg ∷ args) x || contains s x))
            × (length new ≡ length s + added))
    unfolding s_add
    s_add-Changed name key arg obj args s at clock d h =
        let l = arg ∷ args in
        let new = (insert_all c l s).0 in
        let f = add_to c key l in
        let r = make_integer (pos (insert_all c l s).1) in
        (
          subst (λ (out : Out T E). Changed (clock 0) key (some (with_set obj new, at)) r d out)
              (sym (
                found_set_seen (clock 0) key obj at s d
                  (λ e.
                    found_set key (clock 2) (fresh_set key (clock 1) (find key (clock 0) d).1 e)
                      no_pointer f)
                  f h))
              (write_set-Changed (clock 0) key obj at s new r d h),
          insert_all-contains c l s,
          length-insert_all c l s,
        )

    -- SREM of one or more arguments on a key under which a set without repeated members can be
    -- seen, with a clock that stands still: the key has a set of what was in it but for the
    -- arguments, with the deadline from before, or nothing where no member is left; the reply is
    -- the number of members by which the set has shrunk, and every other entry of every database
    -- is as before.
    pub s_rem-Changed :
        (name key arg obj : NanoObj) (args : List NanoObj) (s : List Bytes) (at : Option ℤ)
        (clock : Clock) (now : ℤ) (d : Database T E)
        → ((n : ℕ) → clock n ≡ now)
        → is_distinct s ≡ true
        → HoldsSet now key obj at s d
        → (let (new, removed) = erase_all c (arg ∷ args) s in
            Changed now key
              (left_entry obj at new)
              (make_integer (pos removed))
              d
              (s_rem c (name ∷ key ∷ arg ∷ args) clock d)
            × ((x : Bytes) → contains new x ≡ (not (named (arg ∷ args) x) && contains s x))
            × (length s ≡ length new + removed))
    unfolding s_rem
    s_rem-Changed name key arg obj args s at clock now d still distinct h =
        rw (still 0, still 1)
          (let l = arg ∷ args in
            let new = (erase_all c l s).0 in
            let r = make_integer (pos (erase_all c l s).1) in
            (
              subst (λ (out : Out T E). Changed now key (left_entry obj at new) r d out)
                  (sym (
                    found_set_seen now key obj at s d (reply (make_integer (pos 0)))
                      (remove_from c key l now) h))
                  (keep_set-Changed now key obj at s new r d h),
              erase_all-contains c l s,
              length-erase_all c l s distinct,
            ))
