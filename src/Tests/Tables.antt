-- ===== src/Tests/Tables.antt =====
-- Association lists as the maps of segments, and runs of src/core/dashtable.cc with small segments.
use nano_redis.Prelude.{
  ◌↔◌, ℕ, ◌*◌, ◌%◌, ◌^◌, ◌≤◌, ◌<◌, ◌≡◌, refl, arith, Bool, true, false, not, ◌&&◌, Option, none,
  some, List, [], ◌∷◌, ◌==◌, if◌then◌else◌, Bool-cases, inl, inr, ap, ◌>>=◌,
}
use nano_redis.DashTable.{
  Table, new_table, insert, split_loop, write_entry, get_segment_index, need_split, split_segment,
  find, erase, double_directory, double_loop, double_step, split_chunk, split_between, move_items,
}
use mathlib.Core.Option
use nano_redis.DashTable.Methods.{SameEntries, write_entry-IsConsistent, erase_lem}
use nano_redis.DashTable.Consistent.{IsConsistent}
use nano_redis.DashTable.Split.{Split, split_segment-Split}
use nano_redis.DashTable.Check.{new_table-IsConsistent, is_directory_consistent_lem}
use nano_redis.DashTable.Chunks.{IsUniform, IsShaped}
use nano_redis.DashTable.Walk.{
  is_directory_consistent, shallow_slots, check_chunks, same_slots, for_each,
}
use nano_redis.DashTable.Visits.{for_each-find}
use nano_redis.DashTable.Float.{is_full, to_float, round_from, round_even, nearest}
use nano_redis.DashTable.Interface.{Buckets, is_some, listed, count, one_if, Respects}

abbrev Entries : Type 0
Entries = List (ℕ × ℕ)

abbrev lookup : Entries → ℕ → Option ℕ
lookup [] k = none
lookup ((j, v) ∷ m) k = if j == k then some v else lookup m k

abbrev without : Entries → ℕ → Entries
without [] k = []
without ((j, v) ∷ m) k = let rest = without m k in if j == k then rest else (j, v) ∷ rest

abbrev add : Entries → ℕ → ℕ → Entries
add m k v = if is_some (lookup m k) then m else (k, v) ∷ m

abbrev keys_of : Entries → List ℕ
keys_of [] = []
keys_of ((j, v) ∷ m) = j ∷ keys_of m

-- The low four bits of the key are the first four bits of the hash.
abbrev spread : ℕ → ℕ
spread k = k % 16 * 2 ^ 60

eq_of : (k j : ℕ) → (k == j) ≡ true → k ≡ j
eq_of k j h = ground arith

lookup-without :
    (m : Entries) (k j : ℕ) → lookup (without m k) j ≡ (if k == j then none else lookup m j)
lookup-without [] k j = ground arith
lookup-without ((i, v) ∷ m) k j = ground (arith, lookup-without m k j)

listed-keys_of : (m : Entries) (j : ℕ) → listed ◌==◌ (keys_of m) j ≡ is_some (lookup m j)
listed-keys_of [] j = refl
listed-keys_of ((i, v) ∷ m) j = ground (arith, listed-keys_of m j)

count-without-le :
    (p : ℕ → Bool) (m : Entries) (k : ℕ) → count p (keys_of (without m k)) ≤ count p (keys_of m)
count-without-le p [] k = omega arith
count-without-le p ((i, v) ∷ m) k = ground (arith, count-without-le p m k)

count-erased-le :
    (p : ℕ → Bool) (m : Entries) (k : ℕ)
    → Respects ◌==◌ p
    → is_some (lookup m k) ≡ true
    → one_if (p k) (count p (keys_of (without m k))) ≤ count p (keys_of m)
count-erased-le p [] k r f = ground (arith, f)
count-erased-le p ((i, v) ∷ m) k r f =
    ground (arith, f, r i k, count-erased-le p m k r, count-without-le p m k)

lookup-add :
    (m : Entries) (k j v : ℕ)
    → lookup (add m k v) j ≡ (if k == j && not (is_some (lookup m k)) then some v else lookup m j)
lookup-add m k j v = elim (Bool-cases (is_some (lookup m k))) [
  | inl e ↦ rw e (ground arith)
  | inr e ↦ rw e (ground arith)
]

count-add-le :
    (p : ℕ → Bool) (m : Entries) (k v : ℕ)
    → count p (keys_of (add m k v)) ≤ one_if (p k) (count p (keys_of m))
count-add-le p m k v = elim (Bool-cases (is_some (lookup m k))) [
  | inl e ↦ rw e (ground arith)
  | inr e ↦ rw e (omega arith)
]

lookup-put :
    (m : Entries) (k j v : ℕ)
    → lookup ((k, v) ∷ without m k) j ≡ (if k == j then some v else lookup m j)
lookup-put m k j v = ground (arith, lookup-without m k j)

count-put-le :
    (p : ℕ → Bool) (m : Entries) (k v : ℕ)
    → count p (keys_of ((k, v) ∷ without m k)) ≤ one_if (p k) (count p (keys_of m))
count-put-le p m k v = ground (arith, count-without-le p m k)

symm : (k j : ℕ) → (k == j) ≡ true → (j == k) ≡ true
symm k j h = ground arith

trans : (k j i : ℕ) → (k == j) ≡ true → (j == i) ≡ true → (k == i) ≡ true
trans k j i h g = ground arith

spread-lt : (k : ℕ) → spread k < 2 ^ 64
spread-lt k = omega arith

abbrev number_buckets : Buckets ℕ ℕ
number_buckets = record {
  hash = spread;
  equal = ◌==◌;
  Rep = Entries;
  empty = [];
  find = lookup;
  insert = add;
  insert_or_assign = λ m k v. (k, v) ∷ without m k;
  erase = without;
  clear = λ m. [];
  size = λ m. count (λ k. true) (keys_of m);
  keys = keys_of;
  equal_symm = symm;
  equal_trans = trans;
  hash-lt = spread-lt;
  hash_congr = λ k j h. ap spread (eq_of k j h);
  find_congr = λ m k j h. ap (lookup m) (eq_of k j h);
  find-empty = λ k. refl;
  find-insert = lookup-add;
  find-insert_or_assign = lookup-put;
  find-erase = lookup-without;
  find-clear = λ m k. refl;
  listed-keys = listed-keys_of;
  size_lem = λ m. refl;
  count-empty = λ p. refl;
  count-insert-le = count-add-le;
  count-insert_or_assign-le = count-put-le;
  count-erase-le = count-erased-le;
}

abbrev no_callback : ℕ → Table number_buckets → Table number_buckets
no_callback i t = t

no_callback-SameEntries :
    (i : ℕ) (t : Table number_buckets) → SameEntries number_buckets t (no_callback i t)
no_callback-SameEntries i t = record {
  shape = record {
    directory = refl;
    next = refl;
    global_depth = refl;
    max_segment_size = refl;
    local_depth = λ p. refl;
    segment_id = λ p. refl;
  };
  table = λ p. refl;
}

-- `Insert` of all the keys, each with itself as its value.
abbrev insert_all : List ℕ → Option (Table number_buckets) → Option (Table number_buckets)
insert_all [] t = t
insert_all (k ∷ ks) t = insert_all ks (t >>= λ u. insert number_buckets 40 no_callback u k k)

abbrev grown : Option (Table number_buckets)
grown = insert_all (1 ∷ 9 ∷ 2 ∷ 3 ∷ 11 ∷ []) (some (new_table number_buckets 0 3))

abbrev shape_of : Table number_buckets → ℕ × List ℕ
shape_of t = (t.global_depth, t.segment_directory)

-- The last key is the third with the bits 0, so that the directory is doubled three times.
grown_runs : Option.map shape_of grown ≡ some (3, 0 ∷ 3 ∷ 2 ∷ 2 ∷ 1 ∷ 1 ∷ 1 ∷ 1 ∷ [])
unfolding insert split_loop write_entry get_segment_index need_split is_full to_float round_from
    round_even nearest split_segment double_directory double_loop double_step split_chunk
    split_between move_items new_table
grown_runs = refl

grown_reads : (grown >>= λ t. find number_buckets t 9) ≡ some 9
unfolding insert split_loop write_entry get_segment_index need_split is_full to_float round_from
    round_even nearest split_segment double_directory double_loop double_step split_chunk
    split_between move_items new_table find
grown_reads = refl

-- Segments for 5, 10 and 20 entries are full with 4, 8 and 16, where the product is rounded down.
rounded_down :
    (is_full 5 4 ≡ true) × (is_full 10 8 ≡ true) × (is_full 20 16 ≡ true) × (is_full 20 15 ≡ false)
unfolding is_full to_float round_from round_even nearest
rounded_down = (refl, refl, refl, refl)

abbrev none_yet : Table number_buckets
none_yet = new_table number_buckets 0 3

none_yet-IsConsistent : IsConsistent number_buckets none_yet
none_yet-IsConsistent = new_table-IsConsistent number_buckets 0 3 (omega arith)

abbrev one_key : Table number_buckets
one_key = write_entry number_buckets no_callback none_yet 1 1

one_key-IsConsistent : IsConsistent number_buckets one_key
one_key-IsConsistent =
    write_entry-IsConsistent number_buckets no_callback no_callback-SameEntries none_yet
      none_yet-IsConsistent 1 1

abbrev two_keys : Table number_buckets
two_keys = write_entry number_buckets no_callback one_key 3 3

two_keys-IsConsistent : IsConsistent number_buckets two_keys
two_keys-IsConsistent =
    write_entry-IsConsistent number_buckets no_callback no_callback-SameEntries one_key
      one_key-IsConsistent 3 3

split_segment-Split_example :
    Split number_buckets two_keys 0 (split_segment number_buckets two_keys 0)
unfolding write_entry get_segment_index new_table
split_segment-Split_example =
    split_segment-Split number_buckets two_keys 0 two_keys-IsConsistent (omega arith) (omega arith)

erase_lem_example :
    IsConsistent number_buckets (erase number_buckets no_callback two_keys 3).0
    × ((j : ℕ)
        → find number_buckets (erase number_buckets no_callback two_keys 3).0 j
          ≡ (if 3 == j then none else find number_buckets two_keys j))
    × ((erase number_buckets no_callback two_keys 3).1 ≡ is_some (find number_buckets two_keys 3))
erase_lem_example =
    erase_lem number_buckets no_callback no_callback-SameEntries two_keys two_keys-IsConsistent 3

is_directory_consistent_lem_example :
    ((is_directory_consistent number_buckets two_keys ≡ true) × IsUniform number_buckets two_keys)
    ↔ IsShaped number_buckets two_keys
unfolding write_entry get_segment_index new_table
is_directory_consistent_lem_example =
    is_directory_consistent_lem number_buckets two_keys (omega arith)

-- The walk goes from slot 1 to slot 3, and slot 2 can hold anything.
abbrev unseen_slot : ℕ → Table number_buckets
unseen_slot p = record {
  segment_directory = 0 ∷ 1 ∷ p ∷ 3 ∷ [];
  segments = λ i. record {
    table = [];
    local_depth = if i == 1 then 1 else 2;
    segment_id = if i == 3 then 3 else 0;
    version = 0;
  };
  next = 4;
  global_depth = 2;
  max_segment_size = 3;
}

unseen_slot_passes :
    (is_directory_consistent number_buckets (unseen_slot 0) ≡ true)
    × (is_directory_consistent number_buckets (unseen_slot 3) ≡ true)
unfolding is_directory_consistent shallow_slots check_chunks same_slots
unseen_slot_passes = (refl, refl)

for_each-find_example :
    listed ◌==◌ (for_each number_buckets two_keys) 3 ≡ is_some (find number_buckets two_keys 3)
for_each-find_example = for_each-find number_buckets two_keys two_keys-IsConsistent 3
