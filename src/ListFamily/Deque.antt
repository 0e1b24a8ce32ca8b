-- ===== src/ListFamily/Deque.antt =====
-- What the handlers of src/command/list_family.cc do to the deque.
use nano_redis.Prelude.{
  ℕ, zero, suc, ◌+◌, ◌-◌, Bool, Option, none, some, List, [], ◌∷◌, ◌++◌, Bytes, bytes_eq, take,
  drop, ltb, ◌&&◌, if◌then◌else◌,
}
use nano_redis.Prelude.Int.{ℤ, pos, negsuc, ltb_ℤ, leb_ℤ, ◌+ℤ◌}
use nano_redis.NanoObj.{NanoObj}
use nano_redis.NanoObj.Ops.{to_string, copy_from}
use nano_redis.Resp.{make_bulk_string}

-- `push_front` and `push_back` of the arguments one after another.
unfoldable pub push_front_all : List NanoObj → List NanoObj → List NanoObj
push_front_all [] list = list
push_front_all (arg ∷ args) list = push_front_all args (copy_from arg ∷ list)

unfoldable pub push_back_all : List NanoObj → List NanoObj → List NanoObj
push_back_all [] list = list
push_back_all (arg ∷ args) list = push_back_all args (list ++ copy_from arg ∷ [])

-- `back` and `pop_back`, of a deque that is not empty.
unfoldable pub back : NanoObj → List NanoObj → NanoObj
back o [] = o
back o (p ∷ list) = back p list

unfoldable pub pop_back : NanoObj → List NanoObj → List NanoObj
pop_back o [] = []
pop_back o (p ∷ list) = o ∷ pop_back p list

-- The loop of LPOP: the replies and what is left.
unfoldable pub pop_front_loop : ℕ → List NanoObj → Bytes × List NanoObj
pop_front_loop zero list = ([], list)
pop_front_loop (suc count) [] = ([], [])
pop_front_loop (suc count) (o ∷ list) =
    let (result, left) = pop_front_loop count list in
    (make_bulk_string (to_string o) ++ result, left)

-- The loop of RPOP.
unfoldable pub pop_back_loop : ℕ → List NanoObj → Bytes × List NanoObj
unfolding back pop_back
pop_back_loop zero list = ([], list)
pop_back_loop (suc count) [] = ([], [])
pop_back_loop (suc count) (o ∷ list) =
    let (result, left) = pop_back_loop count (pop_back o list) in
    (make_bulk_string (to_string (back o list)) ++ result, left)

-- A negative index counts from the end.
abbrev pub from_end : ℤ → ℕ → ℤ
from_end index size = if ltb_ℤ index (pos 0) then index +ℤ pos size else index

abbrev natural : ℤ → Option ℕ
natural (pos n) = some n
natural (negsuc n) = none

abbrev below : ℕ → Option ℕ → Option ℕ
below size none = none
below size (some n) = if ltb n size then some n else none

-- The place in the deque that an index means, if there is one.
unfoldable pub position : ℤ → ℕ → Option ℕ
position index size = below size (natural (from_end index size))

-- `start` and `stop` of LRANGE and LTRIM: what is before the list is brought to 0 and -1.
abbrev pub start_of : ℤ → ℕ → ℤ
start_of start len = let s = from_end start len in if ltb_ℤ s (pos 0) then pos 0 else s

abbrev pub stop_of : ℤ → ℕ → ℤ
stop_of stop len = let s = from_end stop len in if ltb_ℤ s (pos 0) then negsuc 0 else s

abbrev pub last_index : ℤ → ℕ → ℤ
last_index stop len = if leb_ℤ (pos len) stop then pos len +ℤ negsuc 0 else stop

-- The bounds where the range is not empty.
abbrev pub bounded : ℤ → ℤ → Option (ℕ × ℕ)
bounded (pos start) (pos stop) = if ltb stop start then none else some (start, stop)
bounded _ _ = none

unfoldable pub range_of : ℤ → ℤ → ℕ → Option (ℕ × ℕ)
range_of start stop len =
    if leb_ℤ (pos len) (start_of start len)
    then none
    else bounded (start_of start len) (last_index (stop_of stop len) len)

-- The elements `start` to `stop`.
abbrev pub slice : ℕ → ℕ → List NanoObj → List NanoObj
slice start stop list = take (stop + 1 - start) (drop start list)

abbrev pub shows : NanoObj → Bytes → Bool
shows o value = bytes_eq (to_string o) value

-- LREM from the front, at most `count` of them, or all: the rest and how many.
unfoldable pub remove_all : Bytes → List NanoObj → List NanoObj × ℕ
remove_all value [] = ([], 0)
remove_all value (o ∷ list) =
    let (kept, removed) = remove_all value list in
    if shows o value then (kept, removed + 1) else (o ∷ kept, removed)

unfoldable pub remove_front : ℕ → Bytes → List NanoObj → List NanoObj × ℕ
remove_front zero value list = (list, 0)
remove_front (suc count) value [] = ([], 0)
remove_front (suc count) value (o ∷ list) =
    let found = remove_front count value list in
    let (kept, removed) = remove_front (suc count) value list in
    if shows o value then (found.0, found.1 + 1) else (o ∷ kept, removed)

-- LREM from the back: what stands behind an element is looked at before it.
unfoldable pub remove_back : ℕ → Bytes → List NanoObj → List NanoObj × ℕ
remove_back count value [] = ([], 0)
remove_back count value (o ∷ list) =
    let (kept, removed) = remove_back count value list in
    if ltb removed count && shows o value then (kept, removed + 1) else (o ∷ kept, removed)

abbrev pub remove : ℤ → Bytes → List NanoObj → List NanoObj × ℕ
remove (pos zero) value list = remove_all value list
remove (pos (suc count)) value list = remove_front (suc count) value list
remove (negsuc n) value list = remove_back (suc n) value list

-- LINSERT at the first element that shows the pivot.
unfoldable pub insert_at : Bool → Bytes → NanoObj → List NanoObj → Option (List NanoObj)
insert_at before pivot value [] = none
insert_at before pivot value (o ∷ list) =
    let later = insert_at before pivot value list in
    if shows o pivot
    then some (if before then value ∷ o ∷ list else o ∷ value ∷ list)
    else elim later [ none ↦ none | some l ↦ some (o ∷ l) ]
