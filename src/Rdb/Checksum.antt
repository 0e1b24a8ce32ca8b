-- ===== src/Rdb/Checksum.antt =====
-- `BuildCrc32` of src/core/rdb_serializer.cc, which src/core/rdb_loader.cc repeats.
use Prim.Native.Nat.{bit_xor}
use nano_redis.Prelude.{
  ℕ, ◌%◌, ◌/◌, ◌^◌, ◌<◌, ◌⊎◌, inl, inr, arith, [], ◌∷◌, ◌++◌, Bytes, ◌≡◌, refl, sym, ap, ◌∙◌,
}
use nano_redis.Prelude.Bits.{xor_cancel, xor_fits}
use nano_redis.Rdb.{build_crc32, crc_loop, crc_byte, crc_bit, ones32}

crc_loop-append : (c : ℕ) (s t : Bytes) → crc_loop c (s ++ t) ≡ crc_loop (crc_loop c s) t
unfolding crc_loop
crc_loop-append c [] t = refl
crc_loop-append c (b ∷ s) t = crc_loop-append (crc_byte c b) s t

-- The checksum of no bytes is the checksum before them.
pub build_crc32-nil : (c : ℕ) → build_crc32 c [] ≡ c
unfolding build_crc32
build_crc32-nil c = xor_cancel c ones32

-- The checksum taken over one piece and continued over a second is the checksum over both together.
pub build_crc32-append :
    (c : ℕ) (s t : Bytes) → build_crc32 (build_crc32 c s) t ≡ build_crc32 c (s ++ t)
unfolding build_crc32
build_crc32-append c s t =
    ap (λ (d : ℕ). bit_xor (crc_loop d t) ones32)
      (xor_cancel (crc_loop (bit_xor c ones32) s) ones32)
    ∙ ap (λ (d : ℕ). bit_xor d ones32) (sym (crc_loop-append (bit_xor c ones32) s t))

crc_bit-fits : (c : ℕ) → c < 2 ^ 32 → crc_bit c < 2 ^ 32
unfolding crc_bit
crc_bit-fits c h = elim (parity c) [
  | inl e ↦ rw e (xor_fits 32 (c / 2) 0 (omega (arith, h)) (omega arith))
  | inr e ↦ rw e (xor_fits 32 (c / 2) 0xedb88320 (omega (arith, h)) (omega arith))
]
  where
    parity : (n : ℕ) → (n % 2 ≡ 0) ⊎ (n % 2 ≡ 1)
    parity n = omega arith

crc_byte-fits : (c b : ℕ) → c < 2 ^ 32 → crc_byte c b < 2 ^ 32
unfolding crc_byte
crc_byte-fits c b h =
    bit (bit (bit (bit (bit (bit (bit (bit (xor_fits 32 c (b % 256) h (omega arith)))))))))
  where
    bit : {d : ℕ} → d < 2 ^ 32 → crc_bit d < 2 ^ 32
    bit {d} p = crc_bit-fits d p

crc_loop-fits : (c : ℕ) (s : Bytes) → c < 2 ^ 32 → crc_loop c s < 2 ^ 32
unfolding crc_loop
crc_loop-fits c [] h = h
crc_loop-fits c (b ∷ s) h = crc_loop-fits (crc_byte c b) s (crc_byte-fits c b h)

-- The checksum is a number of 32 bits.
pub build_crc32-fits : (c : ℕ) (s : Bytes) → c < 2 ^ 32 → build_crc32 c s < 2 ^ 32
unfolding build_crc32
build_crc32-fits c s h =
    xor_fits 32 (crc_loop (bit_xor c ones32) s) ones32
      (crc_loop-fits (bit_xor c ones32) s (xor_fits 32 c ones32 h (omega arith))) (omega arith)
