-- ===== src/ListFamily/Handlers.antt =====
-- The handlers of src/command/list_family.cc.
use nano_redis.Prelude.{
  ℕ, Option, none, some, List, [], ◌∷◌, ◌++◌, Bytes, codes, length, is_empty, leb, ◌==◌,
  if◌then◌else◌,
}
use nano_redis.Prelude.Int.{ℤ, pos}
use nano_redis.NanoObj.{NanoObj}
use nano_redis.NanoObj.Ops.{is_list, to_string}
use nano_redis.Resp.{make_error, make_integer, make_bulk_string, make_array, null_bulk_response}
use nano_redis.Database.{Database, set, assign}
use nano_redis.Database.Interface.{Table}
use nano_redis.Database.Expiry.{find, del}
use nano_redis.ListFamily.{parse_long_long, deque_of, with_deque, new_list}
use nano_redis.ListFamily.Deque.{
  push_front_all, push_back_all, back, pop_back, pop_front_loop, pop_back_loop,
}

-- The readings of the clock, by the number of the call.
abbrev pub Clock : Type 0
Clock = ℕ → ℤ

abbrev pub wrong_number : Bytes → Bytes
wrong_number name = make_error (codes "wrong number of arguments for " ++ name)

abbrev pub Out : Table NanoObj → Table ℤ → Type 0
Out T E = Database T E × Option Bytes

-- The count of LPOP and RPOP: one, or a number that is not negative.
abbrev pub as_count : Option ℤ → Option ℕ
as_count (some (pos n)) = some n
as_count _ = none

abbrev pub count_of : List NanoObj → Option ℕ
count_of [] = some 1
count_of (arg ∷ args) = as_count (parse_long_long (to_string arg))

module _ {T : Table NanoObj} {E : Table ℤ} where
  abbrev pub reply : Bytes → Database T E → Out T E
  reply r d = (d, some r)

  -- What follows on a list object and its deque; no deque is a null pointer.
  abbrev pub with_list :
      NanoObj
      → Option (List NanoObj)
      → (NanoObj → List NanoObj → Database T E → Out T E)
      → Database T E
      → Out T E
  with_list obj none f d = (d, none)
  with_list obj (some list) f d = f obj list d

  -- `Find`, and the test that every handler begins with.
  abbrev pub on_list :
      Option NanoObj
      → (Database T E → Out T E)
      → (NanoObj → List NanoObj → Database T E → Out T E)
      → Database T E
      → Out T E
  on_list none other f d = other d
  on_list (some obj) other f d = if is_list obj then with_list obj (deque_of obj) f d else other d

  abbrev pub found_list :
      NanoObj
      → Clock
      → Database T E
      → (Database T E → Out T E)
      → (NanoObj → List NanoObj → Database T E → Out T E)
      → Out T E
  found_list key clock d other f = on_list (find key (clock 0) d).1 other f (find key (clock 0) d).0

  -- The deque changed in place.
  abbrev pub write : NanoObj → NanoObj → List NanoObj → Database T E → Database T E
  write key obj list d = assign key (with_deque obj list) d

  -- A deque that is changed in place, and the key removed where nothing is left.
  abbrev pub keep : NanoObj → Clock → NanoObj → List NanoObj → Database T E → Database T E
  keep key clock obj list d =
      if is_empty list then (del key (clock 1) (write key obj list d)).0 else write key obj list d

  abbrev pub push :
      (List NanoObj → List NanoObj) → NanoObj → NanoObj → List NanoObj → Database T E → Out T E
  push f key obj list d = reply (make_integer (pos (length (f list)))) (write key obj (f list) d)

  abbrev pub no_pointer : Database T E → Out T E
  no_pointer d = (d, none)

  -- The two calls of `Find` around `Set`; a key of another type is removed first.
  abbrev pub fresh : NanoObj → Clock → Option NanoObj → Database T E → Database T E
  fresh key clock none d = set key new_list d
  fresh key clock (some obj) d = set key new_list (del key (clock 1) d).0

  abbrev pub push_onto :
      (List NanoObj → List NanoObj) → NanoObj → Clock → Option NanoObj → Database T E → Out T E
  push_onto f key clock o d =
      let d' = fresh key clock o d in
      on_list o
        (λ d₀. on_list (find key (clock 2) d').1 no_pointer (push f key) (find key (clock 2) d').0)
        (push f key) d

  unfoldable pub l_push : List NanoObj → Clock → Database T E → Out T E
  unfolding push_front_all
  l_push (name ∷ key ∷ arg ∷ args) clock d =
      push_onto (push_front_all (arg ∷ args)) key clock (find key (clock 0) d).1
        (find key (clock 0) d).0
  l_push _ clock d = reply (wrong_number (codes "LPUSH")) d

  unfoldable pub r_push : List NanoObj → Clock → Database T E → Out T E
  unfolding push_back_all
  r_push (name ∷ key ∷ arg ∷ args) clock d =
      push_onto (push_back_all (arg ∷ args)) key clock (find key (clock 0) d).1
        (find key (clock 0) d).0
  r_push _ clock d = reply (wrong_number (codes "RPUSH")) d

  abbrev pub popped :
      NanoObj
      → Clock
      → Option ℕ
      → Bytes × List NanoObj
      → (ℕ → Bytes × List NanoObj)
      → NanoObj
      → Database T E
      → Out T E
  popped key clock none one many obj d =
      reply (make_error (codes "count is not a valid positive integer")) d
  popped key clock (some count) one many obj d =
      if count == 1
      then reply one.0 (keep key clock obj one.1 d)
      else reply (make_array (pos count) ++ (many count).0) (keep key clock obj (many count).1 d)

  abbrev pub pop_left : NanoObj → Clock → Option ℕ → NanoObj → List NanoObj → Database T E → Out T E
  pop_left key clock count obj [] d = reply null_bulk_response d
  pop_left key clock count obj (o ∷ list) d =
      popped key clock count (make_bulk_string (to_string o), list)
        (λ n. pop_front_loop n (o ∷ list)) obj d

  abbrev pub pop_right :
      NanoObj → Clock → Option ℕ → NanoObj → List NanoObj → Database T E → Out T E
  pop_right key clock count obj [] d = reply null_bulk_response d
  pop_right key clock count obj (o ∷ list) d =
      popped key clock count (make_bulk_string (to_string (back o list)), pop_back o list)
        (λ n. pop_back_loop n (o ∷ list)) obj d

  unfoldable pub l_pop : List NanoObj → Clock → Database T E → Out T E
  unfolding pop_front_loop parse_long_long
  l_pop (name ∷ key ∷ args) clock d =
      if leb (length args) 1
      then found_list key clock d (reply null_bulk_response) (pop_left key clock (count_of args))
      else reply (wrong_number (codes "LPOP")) d
  l_pop _ clock d = reply (wrong_number (codes "LPOP")) d

  unfoldable pub r_pop : List NanoObj → Clock → Database T E → Out T E
  unfolding pop_back_loop parse_long_long
  r_pop (name ∷ key ∷ args) clock d =
      if leb (length args) 1
      then found_list key clock d (reply null_bulk_response) (pop_right key clock (count_of args))
      else reply (wrong_number (codes "RPOP")) d
  r_pop _ clock d = reply (wrong_number (codes "RPOP")) d

  unfoldable pub l_len : List NanoObj → Clock → Database T E → Out T E
  l_len (name ∷ key ∷ []) clock d =
      found_list key clock d (reply (make_integer (pos 0)))
        (λ obj list d'. reply (make_integer (pos (length list))) d')
  l_len _ clock d = reply (wrong_number (codes "LLEN")) d
