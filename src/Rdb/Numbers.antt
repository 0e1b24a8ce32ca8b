-- ===== src/Rdb/Numbers.antt =====
-- The numbers of the dump: the fixed-width ones and the lengths of `SaveLen` and `ReadLen`
-- (src/core/rdb_serializer.cc, src/core/rdb_loader.cc).
use nano_redis.Prelude.{ℕ, zero, suc, ◌/◌, ◌^◌, ◌<◌, length, ◌≡◌, refl, ap, arith}
use native.Mathlib.Nat.{pow-suc}
use nano_redis.Prelude.Int.{ℤ, pos, negsuc, IsInt64}
use nano_redis.Rdb.{le_bytes, le_value}
use nano_redis.Rdb.Save.{to_u64}
use nano_redis.Rdb.Load.{from_u64}

-- A number that fits in `n` bytes is read back from them.
pub le_value-le_bytes : (n v : ℕ) → v < 256 ^ n → le_value (le_bytes n v) ≡ v
unfolding le_value le_bytes
le_value-le_bytes zero v h = omega arith
le_value-le_bytes (suc n) v h =
    omega (arith, pow-suc 256 n, le_value-le_bytes n (v / 256) (omega (arith, pow-suc 256 n)))

pub length-le_bytes : (n v : ℕ) → length (le_bytes n v) ≡ n
unfolding le_bytes
length-le_bytes zero v = refl
length-le_bytes (suc n) v = ap suc (length-le_bytes n (v / 256))

-- A signed 64-bit number is read back from its bit pattern.
pub from_u64-to_u64 : (z : ℤ) → IsInt64 z → from_u64 (to_u64 z) ≡ z
from_u64-to_u64 (pos n) h = ground arith
from_u64-to_u64 (negsuc n) h = ground arith

pub to_u64_small : (z : ℤ) → IsInt64 z → to_u64 z < 2 ^ 64
to_u64_small (pos n) h = omega arith
to_u64_small (negsuc n) h = omega arith
