-- ===== src/DashTable/Insert.antt =====
-- `Insert` of src/core/dashtable.cc as a whole: the write and the splits behind it.
use nano_redis.Prelude.{ℕ, ◌+◌, ◌≡◌, true, false, not}
use nano_redis.DashTable.{Table, segment_at, get_segment_index}
use nano_redis.DashTable.Float.{is_full}
use nano_redis.DashTable.Interface.{Buckets, count}
use nano_redis.DashTable.Growth.{close}

module _ {K V : Type 0} (b : Buckets K V) where
  -- Room for one more key: of the segment of `k`, few keys share the first `bits` bits with it.
  pub record HasRoom (bits : ℕ) (t : Table b) (k : K) : Type 0 where
    pub few :
        is_full t.max_segment_size
          (count (close b bits k) (b.keys (segment_at b t (get_segment_index b t k)).table) + 1)
        ≡ false
    pub proper :
        count (λ j. not (b.equal j j)) (b.keys (segment_at b t (get_segment_index b t k)).table) ≡ 0
    pub key : b.equal k k ≡ true
