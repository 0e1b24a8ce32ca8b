-- ===== src/Rdb/Lengths.antt =====
-- `SaveLen` of src/core/rdb_serializer.cc against `ReadLen` of src/core/rdb_loader.cc, and the strings
-- that they measure.
use nano_redis.Prelude.{
  ℕ, zero, suc, ◌+◌, ◌*◌, ◌/◌, ◌%◌, ◌^◌, ◌<◌, ◌≤◌, true, false, ◌⊎◌, inl, inr, [], ◌∷◌, ◌++◌, Bytes,
  length, ◌==◌, ◌≡◌, refl, ap, ◌∙◌, arith,
}
use mathlib.Core.Path.{subst}
use native.Mathlib.Nat.{pow-suc, add-mul, mul_assoc, mul-le-mul_right}
use nano_redis.Rdb.Save.{write_raw, save_len, save_string, len_bytes}
use nano_redis.Rdb.Load.{read_raw, read_len_loop, read_len, read_string}
use nano_redis.Rdb.Pieces.{
  Writes, Reads, write_raw-Writes, then-Writes, bind-Reads, read_raw-Reads, digit-Reads, last-Reads,
}

seven_more : (r : ℕ) → 2 ^ (7 * suc r) ≡ 128 * 2 ^ (7 * r)
seven_more r =
    ap (λ (k : ℕ). 2 ^ k) more
    ∙ omega (
      arith,
      pow-suc 2 k,
      pow-suc 2 (suc k),
      pow-suc 2 (suc (suc k)),
      pow-suc 2 (suc (suc (suc k))),
      pow-suc 2 (suc (suc (suc (suc k)))),
      pow-suc 2 (suc (suc (suc (suc (suc k))))),
      pow-suc 2 (suc (suc (suc (suc (suc (suc k)))))),
    )
  where
    k : ℕ
    k = 7 * r

    more : 7 * suc r ≡ suc (suc (suc (suc (suc (suc (suc k))))))
    more = omega arith

split_digit : (v p : ℕ) → v * p ≡ v / 128 * (128 * p) + v % 128 * p
split_digit v p =
    ap (λ (t : ℕ). t * p) whole
    ∙ add-mul (v / 128 * 128) (v % 128) p
    ∙ ap (λ (t : ℕ). t + v % 128 * p) (mul_assoc (v / 128) 128 p)
  where
    whole : v ≡ v / 128 * 128 + v % 128
    whole = omega arith

low_fits : (a b p : ℕ) → a < p → b < 128 → a + b * p < 128 * p
low_fits a b p h k = omega (arith, h, mul-le-mul_right {m = b} {n = 127} p (omega arith))

digit_fits : (v p : ℕ) → v * p < 2 ^ 64 → v % 128 * p < 2 ^ 64
digit_fits v p h = omega (arith, h, mul-le-mul_right {m = v % 128} {n = v} p (omega arith))

len_bytes_last : (n v : ℕ) → v < 128 → len_bytes (suc n) v ≡ v ∷ []
unfolding len_bytes
len_bytes_last n v h = rw (small, same) refl
  where
    small : (v / 128 == 0) ≡ true
    small = ground (arith, h)

    same : v % 128 ≡ v
    same = omega (arith, h)

len_bytes_more : (n v : ℕ) → 128 ≤ v → len_bytes (suc n) v ≡ (v % 128 + 128) ∷ len_bytes n (v / 128)
unfolding len_bytes
len_bytes_more n v h = rw (large) refl
  where
    large : (v / 128 == 0) ≡ false
    large = ground (arith, h)

ℕ-split : (n m : ℕ) → (n < m) ⊎ (m ≤ n)
ℕ-split n m = omega arith

-- From digit `r` on, with `acc` read so far.
len_bytes-Reads :
    (n left r acc v : ℕ)
    → n ≤ left
    → r + n ≤ 10
    → acc < 2 ^ (7 * r)
    → v < 128 ^ n
    → 0 < n
    → v * 2 ^ (7 * r) < 2 ^ 64
    → Reads (read_len_loop left r acc) (len_bytes n v) (acc + v * 2 ^ (7 * r))
len_bytes-Reads zero left r acc v hl hr ha hv h0 hs = absurd (omega arith)
len_bytes-Reads (suc n) zero r acc v hl hr ha hv h0 hs = absurd (omega arith)
len_bytes-Reads (suc n) (suc left) r acc v hl hr ha hv h0 hs = elim (ℕ-split v 128) [
  | inl h ↦ rw (len_bytes_last n v h) (last-Reads left r acc v (omega arith) h ha hs)
  | inr h ↦
      let p = 2 ^ (7 * r) in
      let b = v % 128 in
      let small : acc + b * p < 2 ^ (7 * suc r) =
        rw (seven_more r) (low_fits acc b p ha (omega arith)) in
      let left_over : v / 128 * 2 ^ (7 * suc r) < 2 ^ 64 =
        rw (seven_more r) (omega (arith, hs, split_digit v p)) in
      let total : acc + b * p + v / 128 * 2 ^ (7 * suc r) ≡ acc + v * p =
        rw (seven_more r) (omega (arith, split_digit v p)) in
      rw (len_bytes_more n v h) (
        digit-Reads left r acc b (len_bytes n (v / 128)) (acc + v * p) (omega arith) (omega arith)
          ha (digit_fits v p hs)
          (subst
            (λ (t : ℕ). Reads (read_len_loop left (suc r) (acc + b * p)) (len_bytes n (v / 128)) t)
            total
            (len_bytes-Reads n left (suc r) (acc + b * p) (v / 128) (omega arith) (omega arith)
              small (omega (arith, pow-suc 128 n)) (n_pos n v hv h) left_over)))
]
  where
    n_pos : (k u : ℕ) → u < 128 ^ suc k → 128 ≤ u → 0 < k
    n_pos zero u hu h = absurd (omega arith)
    n_pos (suc k) u hu h = omega arith

-- `ReadLen` reads a number below 2^64 back from the bytes that `SaveLen` writes for it, takes no byte
-- more, and continues the checksum over them.
pub read_len-Reads : (n : ℕ) → n < 2 ^ 64 → Reads read_len (len_bytes 10 n) n
unfolding read_len
read_len-Reads n h =
    subst (λ (t : ℕ). Reads (read_len_loop 11 0 0) (len_bytes 10 n) t) (omega arith)
      (len_bytes-Reads 10 11 0 0 n (omega arith) (omega arith) (omega arith) (omega arith)
        (omega arith) (omega arith))

pub save_len-Writes : (n : ℕ) → Writes (save_len n) (len_bytes 10 n)
unfolding save_len
save_len-Writes n = write_raw-Writes (len_bytes 10 n)

-- How a string stands in the dump.
unfoldable pub string_bytes : Bytes → Bytes
unfolding len_bytes
string_bytes s = len_bytes 10 (length s) ++ s

pub save_string-Writes : (s : Bytes) → Writes (save_string s) (string_bytes s)
unfolding save_string string_bytes
save_string-Writes s =
    then-Writes (save_len (length s)) (write_raw s) (len_bytes 10 (length s)) s
      (save_len-Writes (length s)) (write_raw-Writes s)

pub read_string-Reads : (s : Bytes) → length s < 2 ^ 64 → Reads read_string (string_bytes s) s
unfolding read_string string_bytes
read_string-Reads s h =
    bind-Reads read_len read_raw (len_bytes 10 (length s)) s (length s) s
      (read_len-Reads (length s) h) (read_raw-Reads s)
