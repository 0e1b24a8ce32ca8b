-- ===== src/ListFamily/Ends.antt =====
-- The commands on the two ends of a list: LPUSH, RPUSH, LPOP, RPOP of src/command/list_family.cc.
use nano_redis.Prelude.{
  ℕ, zero, suc, ◌+◌, false, Option, some, List, [], ◌∷◌, ◌++◌, length, map, take, drop,
  append_assoc, append-nil, ◌==◌, ◌≡◌, ◌≢◌, refl, sym, ap, ◌∙◌, arith,
}
use mathlib.Core.List.{reverse, reverse-cons}
use mathlib.Core.Path.{subst}
use nano_redis.Prelude.Int.{ℤ, pos}
use nano_redis.NanoObj.{NanoObj}
use nano_redis.NanoObj.Ops.{to_string, copy_from}
use nano_redis.Resp.{null_bulk_response, make_integer, make_bulk_string, make_array}
use nano_redis.Database.{Database}
use nano_redis.Database.Interface.{Table}
use nano_redis.Database.Expiry.{find}
use nano_redis.ListFamily.{with_deque, parse_long_long}
use nano_redis.ListFamily.Deque.{push_front_all, push_back_all, back, pop_back, pop_front_loop}
use nano_redis.ListFamily.Handlers.{
  Clock, push_onto, write, keep, reply, pop_left, count_of, l_push, r_push, l_pop,
}
use nano_redis.ListFamily.Places.{bulk_replies}
use nano_redis.ListFamily.Changes.{
  Holds, Changed, kept_entry, find_seen, found_seen, write-Changed, keep-Changed,
}

pub push_back_all-append :
    (args list : List NanoObj) → push_back_all args list ≡ list ++ map copy_from args
unfolding push_back_all
push_back_all-append [] list = sym (append-nil list)
push_back_all-append (a ∷ args) list =
    push_back_all-append args (list ++ copy_from a ∷ [])
    ∙ append_assoc list (copy_from a ∷ []) (map copy_from args)

pub length-push_front_all :
    (args list : List NanoObj) → length (push_front_all args list) ≡ length args + length list
unfolding push_front_all
length-push_front_all [] list = omega arith
length-push_front_all (a ∷ args) list =
    omega (arith, length-push_front_all args (copy_from a ∷ list))

pub push_front_all-append :
    (args list : List NanoObj) → push_front_all args list ≡ reverse (map copy_from args) ++ list
unfolding push_front_all
push_front_all-append [] list = refl
push_front_all-append (a ∷ args) list =
    push_front_all-append args (copy_from a ∷ list)
    ∙ sym (append_assoc (reverse (map copy_from args)) (copy_from a ∷ []) list)
    ∙ ap (λ (t : List NanoObj). t ++ list) (sym (reverse-cons (copy_from a) (map copy_from args)))

-- The replies of LPOP with a count, and what is left.
pub pop_front_loop_lem :
    (n : ℕ) (list : List NanoObj)
    → pop_front_loop n list ≡ (bulk_replies (take n list), drop n list)
unfolding pop_front_loop
pop_front_loop_lem zero list = refl
pop_front_loop_lem (suc n) [] = refl
pop_front_loop_lem (suc n) (o ∷ list) =
    ap (λ o'. (make_bulk_string (to_string o) ++ o'.0, o'.1)) (pop_front_loop_lem n list)

pop_back-back : (o : NanoObj) (list : List NanoObj) → pop_back o list ++ back o list ∷ [] ≡ o ∷ list
unfolding pop_back back
pop_back-back o [] = refl
pop_back-back o (p ∷ list) = ap (λ (t : List NanoObj). o ∷ t) (pop_back-back p list)

module _ {T : Table NanoObj} {E : Table ℤ} where
  pushed :
      (f : List NanoObj → List NanoObj) (new : List NanoObj) (key obj : NanoObj)
      (list : List NanoObj) (at : Option ℤ) (clock : Clock) (d : Database T E)
      → f list ≡ new
      → Holds (clock 0) key obj at list d
      → Changed
          (clock 0)
          key
          (some (with_deque obj new, at))
          (make_integer (pos (length new)))
          d
          (push_onto f key clock (find key (clock 0) d).1 (find key (clock 0) d).0)
  pushed f new key obj list at clock d e h =
      subst
        (λ out.
          Changed (clock 0) key (some (with_deque obj new, at)) (make_integer (pos (length new))) d
            out)
        (sym run)
        (write-Changed (clock 0) key obj at list new (make_integer (pos (length new))) d h)
    where
      run :
          push_onto f key clock (find key (clock 0) d).1 (find key (clock 0) d).0
          ≡ (write key obj new d, some (make_integer (pos (length new))))
      run =
          ap (λ o. push_onto f key clock o.1 o.0) (find_seen (clock 0) key obj at d h.seen)
          ∙ rw (h.lists, h.deque)
              (ap (λ (l : List NanoObj). (write key obj l d, some (make_integer (pos (length l)))))
                e)

  -- LPUSH of one or more elements on a key under which a list can be seen: the key has copies of
  -- them in reverse order in front of the list, with the deadline from before, the reply is the new
  -- length, and every other entry of every database is as before.
  pub l_push-Changed :
      (name key arg obj : NanoObj) (args list : List NanoObj) (at : Option ℤ) (clock : Clock)
      (d : Database T E)
      → Holds (clock 0) key obj at list d
      → Changed
          (clock 0)
          key
          (some (with_deque obj (reverse (map copy_from (arg ∷ args)) ++ list), at))
          (make_integer (pos (length (reverse (map copy_from (arg ∷ args)) ++ list))))
          d
          (l_push (name ∷ key ∷ arg ∷ args) clock d)
  unfolding l_push
  l_push-Changed name key arg obj args list at clock d h =
      pushed (push_front_all (arg ∷ args)) _ key obj list at clock d
        (push_front_all-append (arg ∷ args) list) h

  -- RPUSH of one or more elements on a key under which a list can be seen: the key has copies of
  -- them in order behind the list, with the deadline from before, the reply is the new length, and
  -- every other entry of every database is as before.
  pub r_push-Changed :
      (name key arg obj : NanoObj) (args list : List NanoObj) (at : Option ℤ) (clock : Clock)
      (d : Database T E)
      → Holds (clock 0) key obj at list d
      → Changed
          (clock 0)
          key
          (some (with_deque obj (list ++ map copy_from (arg ∷ args)), at))
          (make_integer (pos (length (list ++ map copy_from (arg ∷ args)))))
          d
          (r_push (name ∷ key ∷ arg ∷ args) clock d)
  unfolding r_push
  r_push-Changed name key arg obj args list at clock d h =
      pushed (push_back_all (arg ∷ args)) _ key obj list at clock d
        (push_back_all-append (arg ∷ args) list) h

  -- LPOP with a count `n` other than one that `ParseLongLong` reads, on a key under which a list
  -- that is not empty can be seen, and with a clock that stands still: the reply announces `n`
  -- elements and has the first `n` of the list or, if it is shorter, all; the key has the others
  -- with the deadline from before, or nothing where there are none, and every other entry of every
  -- database is as before.
  pub l_pop-Changed :
      (name key obj count : NanoObj) (o : NanoObj) (list : List NanoObj) (n : ℕ) (at : Option ℤ)
      (clock : Clock) (d : Database T E)
      → Holds (clock 0) key obj at (o ∷ list) d
      → clock 1 ≡ clock 0
      → parse_long_long (to_string count) ≡ some (pos n)
      → n ≢ 1
      → Changed
          (clock 0)
          key
          (kept_entry obj at (drop n (o ∷ list)))
          (make_array (pos n) ++ bulk_replies (take n (o ∷ list)))
          d
          (l_pop (name ∷ key ∷ count ∷ []) clock d)
  unfolding l_pop
  l_pop-Changed name key obj count o list n at clock d h still e many =
      subst
        (λ out.
          Changed (clock 0) key (kept_entry obj at (drop n (o ∷ list)))
            (make_array (pos n) ++ bulk_replies (take n (o ∷ list))) d out)
        (sym run)
        (keep-Changed clock (clock 0) key obj at (o ∷ list) (drop n (o ∷ list))
          (make_array (pos n) ++ bulk_replies (take n (o ∷ list))) d still h)
    where
      several : (n == 1) ≡ false
      several = ground (arith, many)

      run : l_pop (name ∷ key ∷ count ∷ []) clock d ≡ (
        keep key clock obj (drop n (o ∷ list)) d,
        some (make_array (pos n) ++ bulk_replies (take n (o ∷ list))),
      )
      run =
          found_seen clock key obj at (o ∷ list) d (reply null_bulk_response)
            (pop_left key clock (count_of (count ∷ []))) h
          ∙ rw (e, several)
              (ap (λ r. (keep key clock obj r.1 d, some (make_array (pos n) ++ r.0)))
                (pop_front_loop_lem n (o ∷ list)))
