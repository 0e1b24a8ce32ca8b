-- ===== src/DashTable/Splitting.antt =====
-- `SplitSegment` (src/core/dashtable.cc) behind the doubling: the chunk of the segment is halved.
use nano_redis.Prelude.{
  ℕ, ◌+◌, ◌-◌, ◌*◌, ◌/◌, ◌%◌, ◌^◌, ◌≤◌, ◌<◌, ◌≡◌, ◌≢◌, refl, arith, length, sym, ap, ◌∙◌, Bool,
  ◌&&◌, if◌then◌else◌, ◌==◌, leb, ltb,
}
use nano_redis.Prelude.Powers.{
  pow_pos, pow_next, pow_mono, block_start, block_end, in_block, prefix-lt,
}
use mathlib.Core.Path.{subst, fun_ext}
use native.Mathlib.Nat.{mul_assoc, add-mul}
use nano_redis.DashTable.{
  Segment, Table, slot, segment_at, write, is_upper, move_items, split_between, split_chunk,
}
use nano_redis.DashTable.Interface.{Buckets}
use nano_redis.DashTable.Directory.{slot-fill, length-fill, write-same, write-other}
use nano_redis.DashTable.Consistent.{prefix, local, chunk, IsConsistent}

module _ {K V : Type 0} (b : Buckets K V) (t : Table b) (i : ℕ) where
  -- Half of the chunk of slot `i`, and the number of its upper half.
  abbrev pub half : ℕ
  half = 2 ^ (t.global_depth - (local b t i + 1))

  abbrev pub upper_block : ℕ
  upper_block = i / chunk b t i * 2 + 1

  abbrev pub goes_up : K → Bool
  goes_up k = prefix t.global_depth (b.hash k) / half == upper_block

  abbrev halves : (K → Bool) → b.Rep × b.Rep
  halves upper =
      let source = (segment_at b t i).table in move_items b upper (b.keys source) (source, b.empty)

  abbrev pub parts : b.Rep × b.Rep
  parts = halves goes_up

  -- The numbers of the chunk, without the bounds of their types.
  record Numbers : Type 0 where
    size : chunk b t i ≡ half * 2
    size32 : 2 ^ (t.global_depth - local b t i) % 2 ^ 32 ≡ chunk b t i
    start : i - i % chunk b t i ≡ i / chunk b t i * 2 * half
    mid : (i - i % chunk b t i + chunk b t i / 2) % 2 ^ 32 ≡ upper_block * half
    end : (i - i % chunk b t i + chunk b t i) % 2 ^ 32 ≡ upper_block * half + half
    inside : upper_block * half + half ≤ length t.segment_directory

  numbers :
      IsConsistent b t → i < length t.segment_directory → local b t i < t.global_depth → Numbers
  numbers c h l =
      let size : chunk b t i ≡ half * 2 =
        pow_next (t.global_depth - (local b t i + 1)) (t.global_depth - local b t i)
          (omega arith) in
      let big = pow_mono t.global_depth 31 c.depth in
      let ends = block_end t.global_depth (local b t i) i (omega arith) (omega (arith, c.width)) in
      let start = block_start i (chunk b t i) in
      let x = i / chunk b t i in
      let lower : x * chunk b t i ≡ x * 2 * half =
        ap (λ (n : ℕ). x * n) size ∙ omega (arith, mul_assoc x half 2, mul_assoc x 2 half) in
      let upper : upper_block * half ≡ x * 2 * half + half = add-mul (x * 2) 1 half ∙ omega arith in
      record {
        size = size;
        size32 = omega (arith, big, ends, c.width);
        start = start ∙ lower;
        mid = omega (arith, big, ends, start, lower, upper, size);
        end = omega (arith, big, ends, start, lower, upper, size);
        inside = omega (arith, c.width, ends, lower, upper, size);
      }

  -- The state behind the split, with the numbers of the blocks in place of the bounds.
  pub record Halved (t' : Table b) : Type 0 where
    pub width : length t'.segment_directory ≡ length t.segment_directory
    pub depth : t'.global_depth ≡ t.global_depth
    pub next : t'.next ≡ t.next + 1
    pub max_segment_size : t'.max_segment_size ≡ t.max_segment_size
    pub slots :
        (j : ℕ)
        → j < length t.segment_directory
        → slot t'.segment_directory j
          ≡ (if j / half == upper_block then t.next else slot t.segment_directory j)
    pub fresh : t'.segments t.next ≡ record {
      table = parts.1;
      local_depth = local b t i + 1;
      segment_id = upper_block * half;
      version = (segment_at b t i).version;
    }
    pub source : t'.segments (slot t.segment_directory i) ≡ record {
      table = parts.0;
      local_depth = local b t i + 1;
      segment_id = i / chunk b t i * 2 * half;
      version = (segment_at b t i).version;
    }
    pub others :
        (p : ℕ) → p ≢ t.next → p ≢ slot t.segment_directory i → t'.segments p ≡ t.segments p

  split_chunk-between :
      Numbers
      → split_chunk b t i
        ≡ split_between b t i
            (i / chunk b t i * 2 * half)
            (upper_block * half)
            (upper_block * half + half)
  unfolding split_chunk
  split_chunk-between n =
      ap
        (λ (size : ℕ).
          split_between b t i (i - i % size) ((i - i % size + size / 2) % 2 ^ 32)
            ((i - i % size + size) % 2 ^ 32))
        n.size32
      ∙ λ k. split_between b t i (n.start k) (n.mid k) (n.end k)

  is_upper-goes_up :
      IsConsistent b t
      → is_upper b t.global_depth (upper_block * half) (upper_block * half + half) ≡ goes_up
  is_upper-goes_up c = fun_ext λ k.
      let small = prefix-lt 64 t.global_depth (b.hash k) (omega (arith, c.depth)) (b.hash-lt k) in
      let e : prefix t.global_depth (b.hash k) % 2 ^ 32 ≡ prefix t.global_depth (b.hash k) =
        omega (arith, small, pow_mono t.global_depth 31 c.depth) in
      rw e (
        in_block upper_block half (prefix t.global_depth (b.hash k))
          (pow_pos (t.global_depth - (local b t i + 1))))

  split_between-Halved :
      IsConsistent b t
      → i < length t.segment_directory
      → local b t i < t.global_depth
      → Halved (
          split_between b t i
            (i / chunk b t i * 2 * half)
            (upper_block * half)
            (upper_block * half + half))
  unfolding split_between
  split_between-Halved c h l =
      let made = (c.blocks i h).made in
      let depth : (local b t i + 1) % 2 ^ 8 ≡ local b t i + 1 = omega (arith, c.depth) in
      let goes = is_upper-goes_up c in
      let p = slot t.segment_directory i in
      let moved =
        halves (is_upper b t.global_depth (upper_block * half) (upper_block * half + half)) in
      let old : Segment b.Rep = record {
        table = moved.0;
        local_depth = (local b t i + 1) % 2 ^ 8;
        segment_id = i / chunk b t i * 2 * half;
        version = (segment_at b t i).version;
      } in
      let new : Segment b.Rep = record {
        table = moved.1;
        local_depth = (local b t i + 1) % 2 ^ 8;
        segment_id = upper_block * half;
        version = (segment_at b t i).version;
      } in
      let s = write t.segments p old in
      let n : upper_block * half + half - upper_block * half ≡ half = omega arith in
      record {
        width =
            length-fill (upper_block * half + half - upper_block * half) t.segment_directory
              (upper_block * half) t.next;
        depth = refl;
        next = refl;
        max_segment_size = refl;
        slots = λ j l.
            slot-fill _ t.segment_directory (upper_block * half) t.next j l
            ∙ ap
                (λ (m : ℕ).
                  if leb (upper_block * half) j && ltb j (upper_block * half + m)
                  then t.next
                  else slot t.segment_directory j)
                n
            ∙ ap (λ (c : Bool). if c then t.next else slot t.segment_directory j)
                (in_block upper_block half j (pow_pos (t.global_depth - (local b t i + 1))));
        fresh = write-same s t.next new ∙ λ k. record {
          table = (halves (goes k)).1;
          local_depth = depth k;
          segment_id = upper_block * half;
          version = (segment_at b t i).version;
        };
        source =
            write-other s t.next new p (λ e. omega (arith, made, e))
            ∙ write-same t.segments p old
            ∙ λ k. record {
              table = (halves (goes k)).0;
              local_depth = depth k;
              segment_id = i / chunk b t i * 2 * half;
              version = (segment_at b t i).version;
            };
        others = λ q l r. write-other s t.next new q l ∙ write-other t.segments p old q r;
      }

  pub split_chunk-Halved :
      IsConsistent b t
      → i < length t.segment_directory
      → local b t i < t.global_depth
      → Halved (split_chunk b t i)
  split_chunk-Halved c h l =
      subst Halved (sym (split_chunk-between (numbers c h l))) (split_between-Halved c h l)
