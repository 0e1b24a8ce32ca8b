-- ===== src/Tests/Sets.antt =====
-- A hash set that puts new members in front, and a database with the sets `x`, `y` under the key 7 and
-- `y` under the key 8.
use nano_redis.Prelude.{
  ℕ, ◌+◌, ◌≡◌, refl, ap, arith, true, not, ◌&&◌, ◌||◌, none, some, List, [], ◌∷◌, Bytes, bytes_eq,
  bytes_eq→eq, bytes_eq_symm, codes, length, Bool-cases, inl, inr, ◌==◌, if◌then◌else◌,
}
use nano_redis.Prelude.Int.{pos}
use nano_redis.NanoObj.{NanoObj, inline_str, int_tag, robj, obj_set}
use nano_redis.Util
use nano_redis.NanoObj
use nano_redis.NanoObj.Ops
use nano_redis.NanoObj.Ops.{obj_eq, is_set, get_obj, to_string}
use nano_redis.Database.{Database}
use nano_redis.Database.Assoc.{assoc_table}
use nano_redis.Database.View.{entry}
use nano_redis.ListFamily.Handlers.{Clock}
use nano_redis.SetFamily.{all_keys_same_shard}
use nano_redis.SetFamily.Interface.{Sets, contains, is_distinct}
use nano_redis.SetFamily.Many.{cross_slot, s_inter, s_diff, s_move}
use nano_redis.SetFamily.Combining.{has, in_some, in_every, RepliesMembers, sets_now}
use nano_redis.SetFamily.Replies.{s_inter-RepliesMembers, s_diff-RepliesMembers}

abbrev insert_front : List Bytes → Bytes → List Bytes
insert_front s m = if contains s m then s else m ∷ s

abbrev erase_each : List Bytes → Bytes → List Bytes
erase_each [] m = []
erase_each (x ∷ s) m = if bytes_eq m x then erase_each s m else x ∷ erase_each s m

contains-insert_front :
    (s : List Bytes) (m x : Bytes) → contains (insert_front s m) x ≡ (bytes_eq m x || contains s x)
contains-insert_front s m x = elim (Bool-cases (contains s m)) [
  | inr e ↦ rw e refl
  | inl e ↦ rw e (elim (Bool-cases (bytes_eq m x)) [
    | inl h ↦ ground (arith, e, h, ap (contains s) (bytes_eq→eq m x h))
    | inr h ↦ ground (arith, h)
  ])
]

contains-erase_each :
    (s : List Bytes) (m x : Bytes)
    → contains (erase_each s m) x ≡ (not (bytes_eq m x) && contains s x)
contains-erase_each [] m x = ground arith
contains-erase_each (y ∷ s) m x =
    let rest = contains-erase_each s m x in
    elim (Bool-cases (bytes_eq m y)) [
      | inl e ↦ rw e (ground (arith, rest, ap (λ (z : Bytes). bytes_eq z x) (bytes_eq→eq m y e)))
      | inr e ↦ rw e (elim (Bool-cases (bytes_eq y x)) [
        | inl h ↦ ground (arith, rest, e, h, ap (bytes_eq m) (bytes_eq→eq y x h))
        | inr h ↦ ground (arith, rest, h)
      ])
    ]

length-insert_front :
    (s : List Bytes) (m : Bytes)
    → length (insert_front s m) ≡ (if contains s m then length s else length s + 1)
length-insert_front s m = ground arith

length-erase_each :
    (s : List Bytes) (m : Bytes)
    → is_distinct s ≡ true
    → length s ≡ (if contains s m then length (erase_each s m) + 1 else length (erase_each s m))
length-erase_each [] m d = refl
length-erase_each (y ∷ s) m d =
    let rest = length-erase_each s m (ground (arith, d)) in
    elim (Bool-cases (bytes_eq m y)) [
      | inl e ↦
          rw e (ground (arith, rest, d, e, bytes_eq_symm m y, ap (contains s) (bytes_eq→eq m y e)))
      | inr e ↦ rw e (ground (arith, rest, e, bytes_eq_symm m y))
    ]

erase_each-distinct :
    (s : List Bytes) (m : Bytes) → is_distinct s ≡ true → is_distinct (erase_each s m) ≡ true
erase_each-distinct [] m d = refl
erase_each-distinct (y ∷ s) m d =
    let rest = erase_each-distinct s m (ground (arith, d)) in
    elim (Bool-cases (bytes_eq m y)) [
      | inl e ↦ rw e rest
      | inr e ↦ rw e (ground (arith, rest, d, contains-erase_each s m y))
    ]

abbrev front_sets : Sets
front_sets = record {
  insert = insert_front;
  erase = erase_each;
  contains-insert = contains-insert_front;
  contains-erase = contains-erase_each;
  length-insert = length-insert_front;
  length-erase = length-erase_each;
  erase-distinct = erase_each-distinct;
}

abbrev x : Bytes
x = codes "x"

abbrev y : Bytes
y = codes "y"

abbrev key : NanoObj
key = int_tag (pos 7)

abbrev other : NanoObj
other = int_tag (pos 8)

abbrev word : NanoObj
word = inline_str (codes "S")

abbrev obj : NanoObj
obj = robj obj_set 2 0 (NanoObj.set_obj (x ∷ y ∷ []))

abbrev second : NanoObj
second = robj obj_set 2 0 (NanoObj.set_obj (y ∷ []))

abbrev keyspace : Database assoc_table assoc_table
keyspace = record {
  tables = λ i. if i == 0 then (key, obj) ∷ (other, second) ∷ [] else [];
  expire_tables = λ i. if i == 0 then (key, pos 5000) ∷ [] else [];
  current_db = 0;
}

abbrev clock : Clock
clock i = pos 1000

-- The texts that end in 7 lie in one shard, the others in another.
abbrev by_last : Bytes → ℕ
by_last [] = 0
by_last (b ∷ []) = if b == 55 then 0 else 1
by_last (b ∷ c ∷ s) = by_last (c ∷ s)

-- The member is taken for a key: here it is of another shard than the two keys.
member_is_a_key :
    s_move front_sets
      (some by_last)
      (word ∷ key ∷ int_tag (pos 17) ∷ inline_str x ∷ [])
      clock
      keyspace
    ≡ (keyspace, some cross_slot)
unfolding s_move all_keys_same_shard Ops.to_string Ops.get_string_view Util.to_string
member_is_a_key = refl

s_inter-RepliesMembers_example :
    RepliesMembers
      (s_inter front_sets (some by_last) (word ∷ key ∷ key ∷ []) clock keyspace).1
      (in_every (sets_now (pos 1000) keyspace) (key ∷ key ∷ []))
unfolding all_keys_same_shard Ops.to_string Util.to_string entry obj_eq is_set get_obj
s_inter-RepliesMembers_example =
    s_inter-RepliesMembers front_sets (some by_last) word key (key ∷ []) clock (pos 1000) keyspace
      (λ n. refl) refl refl

s_diff-RepliesMembers_example :
    RepliesMembers (s_diff front_sets none (word ∷ key ∷ other ∷ []) clock keyspace).1 (λ m.
      has (sets_now (pos 1000) keyspace key) m
      && not (in_some (sets_now (pos 1000) keyspace) (other ∷ []) m))
unfolding all_keys_same_shard entry obj_eq is_set get_obj
s_diff-RepliesMembers_example =
    s_diff-RepliesMembers front_sets none word key (other ∷ []) clock (pos 1000) keyspace
      (λ n. refl) refl refl
