-- ===== src/Rdb.antt =====
-- src/core/rdb_serializer.cc, src/core/rdb_loader.cc, include/core/rdb_defs.h: the dump format. Here:
-- the constants, the checksum and the results; below: the writer, the reader and how they fit.
pub mod Save
pub mod Load
pub mod Checksum
pub mod Numbers
pub mod Pieces
pub mod Lengths
pub mod Objects
pub mod Values
pub mod Entries
pub mod Turns
pub mod Frame
pub mod Dump
pub mod Reload
use Prim.Native.Nat.{bit_and, bit_xor}
use nano_redis.Prelude.{
  ℕ, zero, suc, ◌+◌, ◌-◌, ◌*◌, ◌/◌, ◌%◌, ◌^◌, List, [], ◌∷◌, ◌++◌, Bytes, codes,
}

abbrev pub nrdb_magic : Bytes
nrdb_magic = codes "NRDB0001"

abbrev pub opcode_db_select : ℕ
opcode_db_select = 0xf0

abbrev pub opcode_db_size : ℕ
opcode_db_size = 0xf1

abbrev pub opcode_expire_ms : ℕ
opcode_expire_ms = 0xfd

abbrev pub opcode_eof : ℕ
opcode_eof = 0xff

abbrev pub nrdb_string : ℕ
nrdb_string = 0

abbrev pub nrdb_int : ℕ
nrdb_int = 1

abbrev pub nrdb_hash : ℕ
nrdb_hash = 2

abbrev pub nrdb_set : ℕ
nrdb_set = 3

abbrev pub nrdb_list : ℕ
nrdb_list = 4

abbrev pub nrdb_zset : ℕ
nrdb_zset = 5

abbrev pub ones32 : ℕ
ones32 = 2 ^ 32 - 1

-- One bit: `mask = -(c & 1u); c = (c >> 1) ^ (0xEDB88320u & mask)`.
unfoldable pub crc_bit : ℕ → ℕ
crc_bit c = bit_xor (c / 2) (bit_and 0xedb88320 ((2 ^ 32 - c % 2) % 2 ^ 32))

-- A byte of the data: `c ^= data[i]`, and eight bits.
unfoldable pub crc_byte : ℕ → ℕ → ℕ
unfolding crc_bit
crc_byte c b =
    crc_bit
      (crc_bit (crc_bit (crc_bit (crc_bit (crc_bit (crc_bit (crc_bit (bit_xor c (b % 256)))))))))

unfoldable pub crc_loop : ℕ → Bytes → ℕ
unfolding crc_byte
crc_loop c [] = c
crc_loop c (b ∷ s) = crc_loop (crc_byte c b) s

unfoldable pub build_crc32 : ℕ → Bytes → ℕ
unfolding crc_loop
build_crc32 crc s = bit_xor (crc_loop (bit_xor crc ones32) s) ones32

-- The bytes of a fixed-width integer, lowest first (a little-endian machine).
unfoldable pub le_bytes : ℕ → ℕ → Bytes
le_bytes zero v = []
le_bytes (suc n) v = (v % 256) ∷ le_bytes n (v / 256)

unfoldable pub le_value : Bytes → ℕ
le_value [] = 0
le_value (b ∷ s) = b + 256 * le_value s

-- The `std::error_code`s; `undefined` is a shift that the language leaves undefined.
pub data Error : Type 0 where
  bad_file_descriptor io_error invalid_argument not_supported undefined : Error
  -- an error of the caller's entry handler
  handler_error : ℕ → Error
