-- ===== src/SetFamily.antt =====
-- src/command/set_family.cc: the commands on sets. What the loops of the handlers do to the contents of
-- the sets, and the tests on the arguments.
pub mod Interface
pub mod Handlers
pub mod Many
pub mod Members
pub mod Combining
pub mod Replies
pub mod Changing
use nano_redis.Prelude.{
  ℕ, zero, suc, ◌+◌, ◌-◌, ◌%◌, ◌^◌, Bool, true, false, ◌&&◌, Option, none, some, List, [], ◌∷◌,
  ◌++◌, Bytes, length, ltb, ◌==◌, if◌then◌else◌,
}
use nano_redis.Util.{is_digit}
use nano_redis.NanoObj.{NanoObj, Inner, set_obj, from_set}
use nano_redis.NanoObj.Ops
use nano_redis.NanoObj.Ops.{get_obj, to_string}
use nano_redis.Resp.{make_bulk_string}
use nano_redis.ListFamily.{skip_spaces, read_digits}
use Interface.{Sets, contains}

-- The set of a set object.
abbrev set_in : Inner → Option (List Bytes)
set_in (set_obj s) = some s
set_in _ = none

abbrev pub set_of : NanoObj → Option (List Bytes)
set_of obj = set_in (get_obj obj)

abbrev pub with_set : NanoObj → List Bytes → NanoObj
with_set obj s = Ops.set_obj obj (set_obj s)

-- A new set object with an empty set.
abbrev pub new_set : NanoObj
new_set = with_set from_set []

-- `AllKeysSameShard`, from the keys and what `Shard` says of a text: `none` stands for a context with
-- one shard.
abbrev pub in_shard : (Bytes → ℕ) → ℕ → List NanoObj → Bool
in_shard shard first [] = true
in_shard shard first (key ∷ keys) = (shard (to_string key) == first) && in_shard shard first keys

unfoldable pub all_keys_same_shard : Option (Bytes → ℕ) → List NanoObj → Bool
all_keys_same_shard none keys = true
all_keys_same_shard (some shard) [] = true
all_keys_same_shard (some shard) (key ∷ keys) = in_shard shard (shard (to_string key)) keys

-- `std::stoull` in base 10: `none` where it throws.
unfoldable pub unsigned_value : Bool → Bytes → Option ℕ
unfolding read_digits
unsigned_value negative [] = none
unsigned_value negative (c ∷ s) =
    let v = (read_digits (c ∷ s) 0).0 in
    if is_digit c
    then (if ltb v (2 ^ 64) then some (if negative then (2 ^ 64 - v) % 2 ^ 64 else v) else none)
    else none

abbrev pub after_plus_minus : Bytes → Option ℕ
after_plus_minus [] = none
after_plus_minus (c ∷ s) =
    if c == b'-'
    then unsigned_value true s
    else if c == b'+'
    then unsigned_value false s
    else unsigned_value false (c ∷ s)

unfoldable pub stoull : Bytes → Option ℕ
unfolding skip_spaces unsigned_value
stoull s = after_plus_minus (skip_spaces s)

abbrev pub bulk_members : List Bytes → Bytes
bulk_members [] = []
bulk_members (m ∷ s) = make_bulk_string m ++ bulk_members s

-- `members[offset]`, and the vector without it.
abbrev pub member_at : List Bytes → ℕ → Bytes
member_at [] i = []
member_at (m ∷ s) zero = m
member_at (m ∷ s) (suc i) = member_at s i

abbrev pub remove_at : List Bytes → ℕ → List Bytes
remove_at [] i = []
remove_at (m ∷ s) zero = s
remove_at (m ∷ s) (suc i) = m ∷ remove_at s i

-- The members that SRANDMEMBER draws; `rand` has the values of `std::rand` from now on.
unfoldable pub draw : ℕ → (ℕ → ℕ) → List Bytes → List Bytes
draw zero rand members = []
draw (suc count) rand [] = []
draw (suc count) rand (m ∷ s) =
    let offset = rand 0 % length (m ∷ s) in
    member_at (m ∷ s) offset ∷ draw count (λ i. rand (i + 1)) (remove_at (m ∷ s) offset)

module _ (c : Sets) where
  -- for (i = 2; i < args.size(); i++), with what `added` is at the end
  unfoldable pub insert_all : List NanoObj → List Bytes → List Bytes × ℕ
  insert_all [] s = (s, 0)
  insert_all (arg ∷ args) s =
      let m = to_string arg in
      let (s', added) = insert_all args (c.insert s m) in
      (s', if contains s m then added else added + 1)

  unfoldable pub erase_all : List NanoObj → List Bytes → List Bytes × ℕ
  erase_all [] s = (s, 0)
  erase_all (arg ∷ args) s =
      let m = to_string arg in
      let (s', removed) = erase_all args (c.erase s m) in
      (s', if contains s m then removed + 1 else removed)

  -- The loop of SPOP, which takes the member at `begin()`: those taken, and the set that is left.
  unfoldable pub pop_members : ℕ → List Bytes → List Bytes × List Bytes
  pop_members zero s = ([], s)
  pop_members (suc count) [] = ([], [])
  pop_members (suc count) (m ∷ s) =
      let (taken, left) = pop_members count (c.erase (m ∷ s) m) in (m ∷ taken, left)

  -- for (const auto& elem : intersection) if (sets[i]->count(elem)) temp.insert(elem)
  unfoldable pub common : List Bytes → List Bytes → List Bytes → List Bytes
  common other [] temp = temp
  common other (m ∷ s) temp = common other s (if contains other m then c.insert temp m else temp)

  unfoldable pub intersect : List Bytes → List (List Bytes) → List Bytes
  unfolding common
  intersect s [] = s
  intersect s (t ∷ sets) = intersect (common t s []) sets

  -- union_set.insert(set->begin(), set->end())
  unfoldable pub insert_members : List Bytes → List Bytes → List Bytes
  insert_members s [] = s
  insert_members s (m ∷ t) = insert_members (c.insert s m) t

  -- for (const auto& elem : *set) diff_set.erase(elem)
  unfoldable pub erase_members : List Bytes → List Bytes → List Bytes
  erase_members s [] = s
  erase_members s (m ∷ t) = erase_members (c.erase s m) t
