-- ===== src/Tests/Lists.antt =====
-- A database with the list 1, 2, 1 under the key `7`.
use nano_redis.Prelude.{
  ℕ, some, List, [], ◌∷◌, ◌++◌, codes, take, drop, ◌==◌, if◌then◌else◌, ◌≡◌, refl, arith,
}
use nano_redis.Prelude.Int.{pos, negsuc}
use nano_redis.Util
use nano_redis.NanoObj.{NanoObj, inline_str, int_tag, robj, list_obj, of_list, obj_list}
use nano_redis.NanoObj.Ops
use nano_redis.NanoObj.Ops.{obj_eq, is_list, get_obj, copy_from}
use nano_redis.Resp.{make_integer, make_array}
use nano_redis.Database.{Database}
use nano_redis.Database.Assoc.{assoc_table}
use nano_redis.Database.View.{entry}
use nano_redis.ListFamily.{parse_long_long}
use nano_redis.ListFamily.Deque.{remove_back}
use nano_redis.ListFamily.Handlers.{Clock, l_pop}
use nano_redis.ListFamily.Places.{bulk_replies, l_rem}
use nano_redis.ListFamily.Changes.{Holds, Changed, kept_entry}
use nano_redis.ListFamily.Ends.{l_pop-Changed}
use nano_redis.ListFamily.Removal.{Removed, BackRemoved, remove_back-BackRemoved}
use nano_redis.ListFamily.Edits.{l_rem-Changed}

abbrev key : NanoObj
key = int_tag (pos 7)

abbrev one : NanoObj
one = int_tag (pos 1)

abbrev two : NanoObj
two = int_tag (pos 2)

abbrev list : List NanoObj
list = one ∷ two ∷ one ∷ []

abbrev obj : NanoObj
obj = robj obj_list 0 0 (list_obj (of_list list))

abbrev keyspace : Database assoc_table assoc_table
keyspace = record {
  tables = λ i. if i == 0 then (key, obj) ∷ [] else [];
  expire_tables = λ i. if i == 0 then (key, pos 5000) ∷ [] else [];
  current_db = 0;
}

abbrev clock : Clock
clock i = pos 1000

keyspace-Holds : Holds (pos 1000) key obj (some (pos 5000)) list keyspace
unfolding entry obj_eq is_list get_obj
keyspace-Holds = record { seen = refl; lists = refl; deque = refl }

spelled_5 : parse_long_long (Ops.to_string (int_tag (pos 5))) ≡ some (pos 5)
unfolding parse_long_long Ops.to_string Util.to_string Util.to_digits
spelled_5 = refl

spelled_minus_1 : parse_long_long (Ops.to_string (int_tag (negsuc 0))) ≡ some (negsuc 0)
unfolding parse_long_long Ops.to_string Util.to_string Util.to_digits
spelled_minus_1 = refl

l_pop-Changed_example :
    Changed
      (pos 1000)
      key
      (kept_entry obj (some (pos 5000)) (drop 5 list))
      (make_array (pos 5) ++ bulk_replies (take 5 list))
      keyspace
      (l_pop (inline_str (codes "LPOP") ∷ key ∷ int_tag (pos 5) ∷ []) clock keyspace)
l_pop-Changed_example =
    l_pop-Changed (inline_str (codes "LPOP")) key obj (int_tag (pos 5)) one (two ∷ one ∷ []) 5
      (some (pos 5000)) clock keyspace keyspace-Holds refl spelled_5 (omega arith)

l_rem-Changed_example :
    (out : List NanoObj × ℕ) × Removed (negsuc 0) (Ops.to_string one) list out
    × Changed
        (pos 1000)
        key
        (kept_entry obj (some (pos 5000)) out.0)
        (make_integer (pos out.1))
        keyspace
        (l_rem (inline_str (codes "LREM") ∷ key ∷ int_tag (negsuc 0) ∷ one ∷ []) clock keyspace)
l_rem-Changed_example =
    l_rem-Changed (inline_str (codes "LREM")) key (int_tag (negsuc 0)) one obj list (negsuc 0)
      (some (pos 5000)) clock keyspace keyspace-Holds refl spelled_minus_1 (omega arith)

remove_back-BackRemoved_example : BackRemoved 1 (codes "1") list (remove_back 1 (codes "1") list)
remove_back-BackRemoved_example = remove_back-BackRemoved 1 (codes "1") list
