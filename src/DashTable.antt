-- ===== src/DashTable.antt =====
-- src/core/dashtable.cc, include/core/dashtable.h: extendible hashing. The directory holds pointers
-- to segments, and slots can hold the same pointer: the segments are a store under their addresses.
pub mod Float
pub mod Interface
pub mod Directory
pub mod Doubling
pub mod Consistent
pub mod Moving
pub mod Splitting
pub mod Halves
pub mod Split
pub mod Shape
pub mod Methods
pub mod Growth
pub mod Insert
pub mod Walk
pub mod Visits
pub mod Chunks
pub mod Check
use nano_redis.Prelude.{
  ℕ, zero, suc, ◌+◌, ◌-◌, ◌*◌, ◌/◌, ◌%◌, ◌^◌, Bool, true, false, ◌&&◌, Option, none, some, List, [],
  ◌∷◌, ◌++◌, length, set, ltb, leb, ◌==◌, if◌then◌else◌,
}
use Float.{is_full}
use Interface.{Buckets, is_some}

pub record Segment (Rep : Type 0) : Type 0 where
  pub table : Rep
  pub local_depth : ℕ
  pub segment_id : ℕ
  pub version : ℕ

-- `next` is the address of the next segment that is made.
pub record DashTable (Rep : Type 0) : Type 0 where
  pub segment_directory : List ℕ
  pub segments : ℕ → Segment Rep
  pub next : ℕ
  pub global_depth : ℕ
  pub max_segment_size : ℕ

-- `segment_directory[i]`: the source does not check the index; `resize` makes null pointers.
abbrev pub slot : List ℕ → ℕ → ℕ
slot [] i = 0
slot (p ∷ ps) zero = p
slot (p ∷ ps) (suc i) = slot ps i

abbrev pub write {ℓ} : {A : Type ℓ} → (ℕ → A) → ℕ → A → ℕ → A
write f p a q = if q == p then a else f q

abbrev pub nulls : ℕ → List ℕ
nulls zero = []
nulls (suc n) = 0 ∷ nulls n

-- The numbers from `i`, `n` of them: the addresses of the first segments.
abbrev pub addresses : ℕ → ℕ → List ℕ
addresses zero i = []
addresses (suc n) i = i ∷ addresses n (i + 1)

-- for (i = chunk_mid; i < start_idx + chunk_size; ++i); a write out of bounds is skipped
abbrev pub fill : ℕ → List ℕ → ℕ → ℕ → List ℕ
fill zero d i p = d
fill (suc n) d i p = fill n (set d i p) (i + 1) p

abbrev pub default_max_segment_size : ℕ
default_max_segment_size = 16

module _ {K V : Type 0} (b : Buckets K V) where
  abbrev pub Table : Type 0
  Table = DashTable b.Rep

  abbrev pub segment_at : Table → ℕ → Segment b.Rep
  segment_at t i = t.segments (slot t.segment_directory i)

  -- The constructor, for 2 ^ depth segments: it asserts that the count is a power of two.
  unfoldable pub new_table : ℕ → ℕ → Table
  new_table depth size = record {
    segment_directory = addresses (2 ^ depth) 0;
    segments = λ i. record { table = b.empty; local_depth = depth; segment_id = i; version = 0 };
    next = 2 ^ depth;
    global_depth = depth;
    max_segment_size = size;
  }

  unfoldable pub get_segment_index : Table → K → ℕ
  get_segment_index t key =
      if t.global_depth == 0 then 0 else b.hash key / 2 ^ (64 - t.global_depth)

  unfoldable pub find : Table → K → Option V
  find t key = b.find (segment_at t (get_segment_index t key)).table key

  -- A write to the map of the segment in slot `i`.
  abbrev pub put_map : Table → ℕ → b.Rep → Table
  put_map t i m = record t {
    segments =
        write t.segments (slot t.segment_directory i) (record (segment_at t i) { table = m });
  }

  unfoldable pub need_split : Table → ℕ → Bool
  need_split t i = is_full t.max_segment_size (b.size (segment_at t i).table)

  -- One round of the loop that doubles the directory: both copies, then the segment's new index.
  unfoldable pub double_step : ℕ → Table → Table
  double_step i t =
      let offs = i * 2 in
      let d = set t.segment_directory offs (slot t.segment_directory i) in
      let d' = set d (offs + 1) (slot d i) in
      let p = slot d' i in
      record t {
        segment_directory = d';
        segments = write t.segments p (record (t.segments p) { segment_id = offs % 2 ^ 32 });
      }

  -- for (i = old_size; i-- > 0;)
  unfoldable pub double_loop : ℕ → Table → Table
  double_loop zero t = t
  double_loop (suc i) t = double_loop i (double_step i t)

  unfoldable pub double_directory : Table → Table
  double_directory t =
      let old_size = length t.segment_directory in
      let t' =
        double_loop old_size
          (record t { segment_directory = t.segment_directory ++ nulls old_size }) in
      record t' { global_depth = (t'.global_depth + 1) % 2 ^ 8 }

  -- The entries whose index falls into the upper half go to the new map.
  unfoldable pub move_items : (K → Bool) → List K → b.Rep × b.Rep → b.Rep × b.Rep
  move_items upper [] (source, fresh) = (source, fresh)
  move_items upper (key ∷ items) (source, fresh) =
      if upper key
      then elim (b.find source key) [
        | none ↦ move_items upper items (source, fresh)
        | some v ↦ move_items upper items (b.erase source key, b.insert fresh key v)
      ]
      else move_items upper items (source, fresh)

  -- `new_idx >= chunk_mid && new_idx < start_idx + chunk_size`
  abbrev pub is_upper : ℕ → ℕ → ℕ → K → Bool
  is_upper depth mid end key =
      let new_idx = b.hash key / 2 ^ (64 - depth) % 2 ^ 32 in leb mid new_idx && ltb new_idx end

  -- The new segment, the moves into it, and its slots, from the bounds of the two halves.
  unfoldable pub split_between : Table → ℕ → ℕ → ℕ → ℕ → Table
  unfolding move_items
  split_between t seg_id start_idx chunk_mid end =
      let source = segment_at t seg_id in
      let moved =
        move_items (is_upper t.global_depth chunk_mid end) (b.keys source.table)
          (source.table, b.empty) in
      let depth = (source.local_depth + 1) % 2 ^ 8 in
      record t {
        segment_directory = fill (end - chunk_mid) t.segment_directory chunk_mid t.next;
        segments =
            write
              (write t.segments (slot t.segment_directory seg_id)
                (record source { table = moved.0; local_depth = depth; segment_id = start_idx }))
              t.next
              (record {
                table = moved.1;
                local_depth = depth;
                segment_id = chunk_mid;
                version = source.version;
              });
        next = t.next + 1;
      }

  -- The part of `SplitSegment` behind the doubling. `chunk_size` is a power of two, so that the
  -- mask `~(chunk_size - 1)` rounds down to its multiples.
  unfoldable pub split_chunk : Table → ℕ → Table
  split_chunk t seg_id =
      let chunk_size = 2 ^ (t.global_depth - (segment_at t seg_id).local_depth) % 2 ^ 32 in
      let start_idx = seg_id - seg_id % chunk_size in
      split_between t seg_id start_idx ((start_idx + chunk_size / 2) % 2 ^ 32)
        ((start_idx + chunk_size) % 2 ^ 32)

  unfoldable pub split_segment : Table → ℕ → Table
  split_segment t seg_id =
      if (segment_at t seg_id).local_depth == t.global_depth
      then (let t' = double_directory t in
          split_chunk t' (t'.segments (slot t.segment_directory seg_id)).segment_id)
      else split_chunk t seg_id

  -- while (NeedSplit(seg_idx)): `none` when the fuel does not suffice.
  unfoldable pub split_loop : ℕ → Table → K → Option Table
  split_loop zero t key = none
  split_loop (suc fuel) t key =
      if need_split t (get_segment_index t key)
      then split_loop fuel (split_segment t (get_segment_index t key)) key
      else some t

  -- The write of `Insert`, before the splits; `cb` is the callback, the identity where none is set.
  unfoldable pub write_entry : (ℕ → Table → Table) → Table → K → V → Table
  write_entry cb t key value =
      let i = get_segment_index t key in
      let t' = cb i t in put_map t' i (b.insert_or_assign (segment_at t' i).table key value)

  unfoldable pub insert : ℕ → (ℕ → Table → Table) → Table → K → V → Option Table
  insert fuel cb t key value = split_loop fuel (write_entry cb t key value) key

  unfoldable pub erase : (ℕ → Table → Table) → Table → K → Table × Bool
  erase cb t key =
      let i = get_segment_index t key in
      let t' = cb i t in
      (
        put_map t' i (b.erase (segment_at t' i).table key),
        is_some (b.find (segment_at t' i).table key),
      )

  -- for (auto& segment : segment_directory) segment->table.clear()
  abbrev pub clear_slots : List ℕ → (ℕ → Segment b.Rep) → ℕ → Segment b.Rep
  clear_slots [] s = s
  clear_slots (p ∷ d) s = clear_slots d (write s p (record (s p) { table = b.clear (s p).table }))

  unfoldable pub clear : Table → Table
  clear t = record t { segments = clear_slots t.segment_directory t.segments }
