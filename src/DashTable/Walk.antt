-- ===== src/DashTable/Walk.antt =====
-- The walks over the segments of src/core/dashtable.cc and include/core/dashtable.h: `NextSeg`,
-- `ForEach`, `Size`, `IsDirectoryConsistent`. Every round moves on by one slot or more, so that as many
-- rounds as slots are enough.
use nano_redis.Prelude.{
  ℕ, zero, suc, ◌+◌, ◌-◌, ◌/◌, ◌%◌, ◌^◌, ◌<◌, ◌≡◌, arith, List, [], ◌++◌, length, ap, ◌∙◌, true,
  false, Bool, ◌&&◌, ◌==◌, if◌then◌else◌, ltb, leb,
}
use nano_redis.Prelude.Powers.{prefix-prefix}
use nano_redis.DashTable.{Table, slot, segment_at, get_segment_index, find}
use nano_redis.DashTable.Interface.{Buckets, is_some}
use nano_redis.DashTable.Consistent.{local, chunk, IsConsistent, get_segment_index_lem, index-lt}

module _ {K V : Type 0} (b : Buckets K V) where
  unfoldable pub next_seg : Table b → ℕ → ℕ
  next_seg t sid =
      if leb (length t.segment_directory) sid
      then sid
      else sid + 2 ^ (t.global_depth - (segment_at b t sid).local_depth)

  -- for (i = sid; i < segment_directory.size(); i = NextSeg(i)), with the keys that `func` receives
  unfoldable pub visit : ℕ → Table b → ℕ → List K
  visit zero t sid = []
  visit (suc fuel) t sid =
      let rest = visit fuel t (next_seg t sid) in
      if ltb sid (length t.segment_directory) then b.keys (segment_at b t sid).table ++ rest else []

  unfoldable pub for_each : Table b → List K
  unfolding visit
  for_each t = visit (length t.segment_directory) t 0

  unfoldable pub sum_sizes : ℕ → Table b → ℕ → ℕ
  sum_sizes zero t sid = 0
  sum_sizes (suc fuel) t sid =
      let rest = sum_sizes fuel t (next_seg t sid) in
      if ltb sid (length t.segment_directory) then b.size (segment_at b t sid).table + rest else 0

  unfoldable pub size : Table b → ℕ
  unfolding sum_sizes
  size t = sum_sizes (length t.segment_directory) t 0

  unfoldable pub for_each_in_seg : Table b → ℕ → List K
  for_each_in_seg t i =
      if leb (length t.segment_directory) i then [] else b.keys (segment_at b t i).table

  -- no local depth above the global one
  unfoldable pub shallow_slots : ℕ → Table b → Bool
  shallow_slots zero t = true
  shallow_slots (suc i) t = leb (segment_at b t i).local_depth t.global_depth && shallow_slots i t

  -- for (j = 1; j < chunk_size; ++j): the slots hold the segment `p`
  unfoldable pub same_slots : ℕ → Table b → ℕ → ℕ → Bool
  same_slots zero t start p = true
  same_slots (suc j) t start p =
      slot t.segment_directory (start + suc j) == p && same_slots j t start p

  unfoldable pub check_chunks : ℕ → Table b → ℕ → Bool
  unfolding same_slots
  check_chunks zero t i = true
  check_chunks (suc fuel) t i =
      let chunk_size = 2 ^ (t.global_depth - (segment_at b t i).local_depth) % 2 ^ 32 in
      let start_idx = i - i % chunk_size in
      let rest = check_chunks fuel t (i + chunk_size) in
      if ltb i (length t.segment_directory)
      then same_slots (chunk_size - 1) t start_idx (slot t.segment_directory i)
        && ((segment_at b t i).segment_id == start_idx)
        && rest
      else true

  unfoldable pub is_directory_consistent : Table b → Bool
  unfolding shallow_slots check_chunks
  is_directory_consistent t =
      if ltb 64 t.global_depth
      then false
      else (let expected_dir_size = if t.global_depth == 0 then 1 else 2 ^ t.global_depth in
          (length t.segment_directory == expected_dir_size)
          && shallow_slots (length t.segment_directory) t
          && check_chunks (length t.segment_directory) t 0)

  -- What a segment has under a key is what the table has.
  pub segment-find :
      (t : Table b) (c : IsConsistent b t) (i : ℕ) (k : K)
      → i < length t.segment_directory
      → is_some (b.find (segment_at b t i).table k) ≡ true
      → is_some (find b t k) ≡ true
  unfolding find
  segment-find t c i k h f =
      let o = c.blocks i h in
      let j = get_segment_index b t k in
      let same : j / chunk b t i ≡ i / chunk b t i =
        ap (λ (n : ℕ). n / chunk b t i) (get_segment_index_lem b t k)
        ∙ prefix-prefix t.global_depth (local b t i) (b.hash k) o.shallow (omega (arith, c.depth))
        ∙ o.placed k f in
      ap (λ (p : ℕ). is_some (b.find (t.segments p).table k))
        ((o.shared j (index-lt b t k c)).1 same)
      ∙ f
