-- ===== src/SetFamily/Handlers.antt =====
-- The handlers of src/command/set_family.cc that work on one set. The sums of `int` count arguments,
-- and are taken for numbers without a bound.
use nano_redis.Prelude.{
  ℕ, zero, suc, ◌+◌, ◌%◌, Bool, true, false, Option, none, some, List, [], ◌∷◌, ◌++◌, Bytes, codes,
  length, is_empty, if◌then◌else◌,
}
use nano_redis.Prelude.Int.{ℤ, pos, negsuc}
use nano_redis.NanoObj.{NanoObj}
use nano_redis.NanoObj.Ops.{is_set, to_string}
use nano_redis.Resp.{make_error, make_integer, make_bulk_string, make_array, make_null_bulk_string}
use nano_redis.Database.{Database, set, assign}
use nano_redis.Database.Interface.{Table}
use nano_redis.Database.Expiry.{find, del}
use nano_redis.ListFamily.{parse_long_long}
use nano_redis.ListFamily.Handlers.{Clock, Out, reply, no_pointer, wrong_number, count_of}
use nano_redis.SetFamily.{
  set_of, with_set, new_set, stoull, bulk_members, member_at, draw, insert_all, erase_all,
  pop_members,
}
use nano_redis.SetFamily.Interface.{Sets, contains}

abbrev pub membership : Bool → Bytes
membership true = make_integer (pos 1)
membership false = make_integer (pos 0)

abbrev pub all_zero : List NanoObj → Bytes
all_zero [] = []
all_zero (arg ∷ args) = make_integer (pos 0) ++ all_zero args

abbrev pub are_members : List Bytes → List NanoObj → Bytes
are_members s [] = []
are_members s (arg ∷ args) = membership (contains s (to_string arg)) ++ are_members s args

-- The reply of SSCAN, by the cursor.
abbrev pub scanned : List Bytes → Option ℕ → Bytes
scanned s none = make_error (codes "invalid cursor")
scanned s (some zero) =
    make_array (pos 2)
    ++ (make_bulk_string (codes "0") ++ (make_array (pos (length s)) ++ bulk_members s))
scanned s (some (suc n)) =
    make_array (pos 2) ++ (make_bulk_string (codes "0") ++ make_array (pos 0))

-- The reply of SRANDMEMBER with a count.
abbrev pub drawn : (ℕ → ℕ) → List Bytes → Option ℤ → Bytes
drawn rand s none = make_error (codes "count is not a valid integer")
drawn rand s (some (pos n)) = make_array (pos n) ++ bulk_members (draw n rand s)
drawn rand s (some (negsuc n)) = make_array (negsuc n)

-- The reply of SRANDMEMBER from a set and the arguments behind the key.
abbrev pub random_reply : (ℕ → ℕ) → List Bytes → List NanoObj → Bytes
random_reply rand [] args = make_null_bulk_string
random_reply rand (m ∷ s) [] = make_bulk_string (member_at (m ∷ s) (rand 0 % length (m ∷ s)))
random_reply rand (m ∷ s) (arg ∷ args) = drawn rand (m ∷ s) (parse_long_long (to_string arg))

module _ {T : Table NanoObj} {E : Table ℤ} where
  abbrev pub with_set_in :
      NanoObj
      → Option (List Bytes)
      → (NanoObj → List Bytes → Database T E → Out T E)
      → Database T E
      → Out T E
  with_set_in obj none f d = (d, none)
  with_set_in obj (some s) f d = f obj s d

  -- The test behind `Find`, with which the handlers begin.
  abbrev pub on_set :
      Option NanoObj
      → (Database T E → Out T E)
      → (NanoObj → List Bytes → Database T E → Out T E)
      → Database T E
      → Out T E
  on_set none other f d = other d
  on_set (some obj) other f d = if is_set obj then with_set_in obj (set_of obj) f d else other d

  abbrev pub found_set :
      NanoObj
      → ℤ
      → Database T E
      → (Database T E → Out T E)
      → (NanoObj → List Bytes → Database T E → Out T E)
      → Out T E
  found_set key now d other f = on_set (find key now d).1 other f (find key now d).0

  -- The set changed in place.
  abbrev pub write_set : NanoObj → NanoObj → List Bytes → Database T E → Database T E
  write_set key obj s d = assign key (with_set obj s) d

  -- A set that is changed in place, and the key removed where nothing is left.
  abbrev pub keep_set : NanoObj → ℤ → NanoObj → List Bytes → Database T E → Database T E
  keep_set key now obj s d =
      if is_empty s then (del key now (write_set key obj s d)).0 else write_set key obj s d

  -- A new set under the key; an object of another type is removed first.
  abbrev pub fresh_set : NanoObj → ℤ → Option NanoObj → Database T E → Database T E
  fresh_set key now none d = set key new_set d
  fresh_set key now (some obj) d = set key new_set (del key now d).0

  -- The set under the key, made where there is none; `i` is the number of the first call of the clock.
  abbrev pub set_made :
      NanoObj → Clock → ℕ → (NanoObj → List Bytes → Database T E → Out T E) → Database T E → Out T E
  set_made key clock i f d =
      let (d', o) = find key (clock i) d in
      on_set o (λ e. found_set key (clock (i + 2)) (fresh_set key (clock (i + 1)) o e) no_pointer f)
        f d'

  unfoldable pub s_members : List NanoObj → Clock → Database T E → Out T E
  s_members (name ∷ key ∷ []) clock d =
      found_set key (clock 0) d (reply (make_array (pos 0)))
        (λ obj s. reply (make_array (pos (length s)) ++ bulk_members s))
  s_members _ clock d = reply (wrong_number (codes "SMEMBERS")) d

  unfoldable pub s_card : List NanoObj → Clock → Database T E → Out T E
  s_card (name ∷ key ∷ []) clock d =
      found_set key (clock 0) d (reply (make_integer (pos 0)))
        (λ obj s. reply (make_integer (pos (length s))))
  s_card _ clock d = reply (wrong_number (codes "SCARD")) d

  unfoldable pub s_is_member : List NanoObj → Clock → Database T E → Out T E
  s_is_member (name ∷ key ∷ arg ∷ []) clock d =
      found_set key (clock 0) d (reply (make_integer (pos 0)))
        (λ obj s. reply (membership (contains s (to_string arg))))
  s_is_member _ clock d = reply (wrong_number (codes "SISMEMBER")) d

  unfoldable pub s_mis_member : List NanoObj → Clock → Database T E → Out T E
  s_mis_member (name ∷ key ∷ arg ∷ args) clock d =
      let head = make_array (pos (length (arg ∷ args))) in
      found_set key (clock 0) d (reply (head ++ all_zero (arg ∷ args)))
        (λ obj s. reply (head ++ are_members s (arg ∷ args)))
  s_mis_member _ clock d = reply (wrong_number (codes "SMISMEMBER")) d

  unfoldable pub s_scan : List NanoObj → Clock → Database T E → Out T E
  unfolding stoull
  s_scan (name ∷ key ∷ cursor ∷ args) clock d =
      found_set key (clock 0) d
        (reply
          (make_error (codes "WRONGTYPE Operation against a key holding the wrong kind of value")))
        (λ obj s. reply (scanned s (stoull (to_string cursor))))
  s_scan _ clock d = reply (wrong_number (codes "SSCAN")) d

  abbrev pub random_member : (ℕ → ℕ) → NanoObj → List NanoObj → Clock → Database T E → Out T E
  random_member rand key args clock d =
      found_set key (clock 0) d (reply make_null_bulk_string)
        (λ obj s. reply (random_reply rand s args))

  -- `rand` has the values that `std::rand` will return.
  unfoldable pub s_rand_member : (ℕ → ℕ) → List NanoObj → Clock → Database T E → Out T E
  s_rand_member rand (name ∷ key ∷ []) clock d = random_member rand key [] clock d
  s_rand_member rand (name ∷ key ∷ count ∷ []) clock d = random_member rand key (count ∷ []) clock d
  s_rand_member rand _ clock d = reply (wrong_number (codes "SRANDMEMBER")) d

  module _ (c : Sets) where
    -- Arguments added to a set, and the number of those that are new.
    abbrev pub add_to : NanoObj → List NanoObj → NanoObj → List Bytes → Database T E → Out T E
    add_to key args obj s d =
        let (s', added) = insert_all c args s in
        reply (make_integer (pos added)) (write_set key obj s' d)

    unfoldable pub s_add : List NanoObj → Clock → Database T E → Out T E
    s_add (name ∷ key ∷ arg ∷ args) clock d = set_made key clock 0 (add_to key (arg ∷ args)) d
    s_add _ clock d = reply (wrong_number (codes "SADD")) d

    abbrev pub remove_from :
        NanoObj → List NanoObj → ℤ → NanoObj → List Bytes → Database T E → Out T E
    remove_from key args now obj s d =
        let (s', removed) = erase_all c args s in
        reply (make_integer (pos removed)) (keep_set key now obj s' d)

    unfoldable pub s_rem : List NanoObj → Clock → Database T E → Out T E
    s_rem (name ∷ key ∷ arg ∷ args) clock d =
        found_set key (clock 0) d (reply (make_integer (pos 0)))
          (remove_from key (arg ∷ args) (clock 1))
    s_rem _ clock d = reply (wrong_number (codes "SREM")) d

    -- What SPOP does to a set, with the count that it has been given.
    abbrev pub take_members : NanoObj → ℤ → Option ℕ → NanoObj → List Bytes → Database T E → Out T E
    take_members key now count obj [] d = reply make_null_bulk_string d
    take_members key now none obj (m ∷ s) d =
        reply (make_error (codes "count is not a valid positive integer")) d
    take_members key now (some count) obj (m ∷ s) d =
        let (taken, left) = pop_members c count (m ∷ s) in
        reply (make_array (pos count) ++ bulk_members taken) (keep_set key now obj left d)

    abbrev pub pop_from : NanoObj → List NanoObj → Clock → Database T E → Out T E
    pop_from key args clock d =
        found_set key (clock 0) d (reply make_null_bulk_string)
          (take_members key (clock 1) (count_of args))

    unfoldable pub s_pop : List NanoObj → Clock → Database T E → Out T E
    s_pop (name ∷ key ∷ []) clock d = pop_from key [] clock d
    s_pop (name ∷ key ∷ count ∷ []) clock d = pop_from key (count ∷ []) clock d
    s_pop _ clock d = reply (wrong_number (codes "SPOP")) d
