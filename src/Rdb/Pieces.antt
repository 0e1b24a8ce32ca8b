-- ===== src/Rdb/Pieces.antt =====
-- What a step of src/core/rdb_serializer.cc writes and what a step of src/core/rdb_loader.cc reads.
use Prim.Native.Nat.{bit_or}
use nano_redis.Prelude.{
  ℕ, suc, ◌+◌, ◌-◌, ◌*◌, ◌/◌, ◌%◌, ◌^◌, ◌<◌, ◌≤◌, true, false, not, none, some, [], ◌∷◌, ◌++◌,
  Bytes, length, take_prefix, drop_prefix, length-append, append_assoc, append-nil, leb, ◌==◌,
  if◌then◌else◌, ◌≡◌, sym, ap, ◌∙◌, arith,
}
use mathlib.Core.Path.{subst}
use nano_redis.Prelude.Bits.{or_disjoint}
use nano_redis.Rdb.{build_crc32, bad_file_descriptor}
use nano_redis.Rdb.Checksum.{build_crc32-nil, build_crc32-append}
use nano_redis.Rdb.Save
use nano_redis.Rdb.Save.{Saver, Save, write_raw, save_len, save_string, len_bytes}
use nano_redis.Rdb.Load
use nano_redis.Rdb.Load.{
  Loader, Load, Result, ok, err, read_raw, read_opcode, read_len_loop, read_len, read_string,
}

-- The serializer after the bytes `w`.
abbrev pub wrote : Bytes → Saver → Saver
wrote w s = record s {
  out = s.out ++ w;
  room = s.room - length w;
  checksum = build_crc32 s.checksum w;
}

-- With a sink that has room, `m` appends `w` and takes the checksum over it.
abbrev pub Writes : Save → Bytes → Type 0
Writes m w = (s : Saver) → s.has_sink ≡ true → length w ≤ s.room → m s ≡ (none, wrote w s)

-- The loader before `input`, with the checksum `c`.
abbrev pub before : ℕ → ℕ → Bytes → Loader
before shard c input = record {
  has_source = true;
  input = input;
  expected_shard_id = shard;
  checksum = c;
}

-- `m` takes `w` off the input, takes the checksum over it and gives `a`.
abbrev pub Reads : {A : Type 0} → Load A → Bytes → A → Type 0
Reads m w a =
    (shard c : ℕ) (rest : Bytes)
    → m (before shard c (w ++ rest)) ≡ (ok a, before shard (build_crc32 c w) rest)

pub wrote-nil : (s : Saver) → wrote [] s ≡ s
wrote-nil s i = record s {
  out = append-nil s.out i;
  room = room i;
  checksum = build_crc32-nil s.checksum i;
}
  where
    room : s.room - 0 ≡ s.room
    room = omega arith

pub wrote-append : (v w : Bytes) (s : Saver) → wrote w (wrote v s) ≡ wrote (v ++ w) s
wrote-append v w s i = record s {
  out = append_assoc s.out v w i;
  room = room i;
  checksum = build_crc32-append s.checksum v w i;
}
  where
    room : s.room - length v - length w ≡ s.room - length (v ++ w)
    room = omega (arith, length-append v w)

pub write_raw-Writes : (w : Bytes) → Writes (write_raw w) w
unfolding write_raw
write_raw-Writes [] s h r =
    ap (λ b. if not b then (some bad_file_descriptor, s) else (none, s)) h
    ∙ ap (λ (t : Saver). (none, t)) (sym (wrote-nil s))
write_raw-Writes (b ∷ w) s h r = ground (arith, h)

pub success-Writes : Writes Save.success []
success-Writes s h r = ap (λ (t : Saver). (none, t)) (sym (wrote-nil s))

pub then-Writes :
    (m k : Save) (v w : Bytes) → Writes m v → Writes k w → Writes (Save.◌>>◌ m k) (v ++ w)
then-Writes m k v w p q s h r =
    ap (λ o. Save.continue o.0 k o.1) (p s h (omega (arith, length-append v w)))
    ∙ q (wrote v s) h (omega (arith, length-append v w))
    ∙ ap (λ (t : Saver). (none, t)) (wrote-append v w s)

pub pure-Reads : {A : Type 0} (a : A) → Reads (Load.pure a) [] a
pure-Reads a shard c rest = ap (λ (d : ℕ). (ok a, before shard d rest)) (sym (build_crc32-nil c))

pub bind-Reads :
    {A B : Type 0} (m : Load A) (f : A → Load B) (v w : Bytes) (a : A) (b : B)
    → Reads m v a
    → Reads (f a) w b
    → Reads (Load.◌>>=◌ m f) (v ++ w) b
bind-Reads m f v w a b p q shard c rest =
    ap (λ t. Load.continue (m (before shard c t)).0 f (m (before shard c t)).1)
      (append_assoc v w rest)
    ∙ ap (λ o. Load.continue o.0 f o.1) (p shard c (w ++ rest))
    ∙ q shard (build_crc32 c v) rest
    ∙ ap (λ (d : ℕ). (ok b, before shard d rest)) (build_crc32-append c v w)

pub map-Reads :
    {A B : Type 0} (m : Load A) (f : A → B) (w : Bytes) (a : A)
    → Reads m w a
    → Reads (Load.◌>>=◌ m (λ x. Load.pure (f x))) w (f a)
map-Reads m f w a p =
    subst (λ (v : Bytes). Reads (Load.◌>>=◌ m (λ x. Load.pure (f x))) v (f a)) (append-nil w)
      (bind-Reads m (λ x. Load.pure (f x)) w [] a (f a) p (pure-Reads (f a)))

pub read_raw-Reads : (w : Bytes) → Reads (read_raw (length w)) w w
unfolding read_raw
read_raw-Reads [] shard c rest = pure-Reads [] shard c rest
read_raw-Reads (b ∷ w) shard c rest =
    ground (arith, take_prefix (b ∷ w) rest, drop_prefix (b ∷ w) rest, length-append w rest)

pub read_opcode-Reads : (b : ℕ) → Reads read_opcode (b ∷ []) b
unfolding read_opcode
read_opcode-Reads b =
    bind-Reads (read_raw 1) (λ buf. Load.pure (Load.head_or_zero buf)) (b ∷ []) [] (b ∷ []) b
      (read_raw-Reads (b ∷ [])) (pure-Reads b)

module _ (rounds acc b : ℕ) (ha : acc < 2 ^ (7 * rounds)) (hs : b * 2 ^ (7 * rounds) < 2 ^ 64) where
  -- The digit of a byte with the low bits `b`, put into place.
  placed :
      (byte : ℕ)
      → byte % 128 ≡ b
      → bit_or acc (byte % 128 * 2 ^ (7 * rounds) % 2 ^ 64) ≡ acc + b * 2 ^ (7 * rounds)
  placed byte low =
      ap (λ (d : ℕ). bit_or acc (d * 2 ^ (7 * rounds) % 2 ^ 64)) low
      ∙ ap (λ (d : ℕ). bit_or acc d) small
      ∙ or_disjoint (7 * rounds) acc b ha
    where
      small : b * 2 ^ (7 * rounds) % 2 ^ 64 ≡ b * 2 ^ (7 * rounds)
      small = omega (arith, hs)

-- One digit of the length: seven bits, and whether more follow.
pub digit-Reads :
    (left rounds acc b : ℕ) (w : Bytes) (a : ℕ)
    → 7 * rounds < 64
    → b < 128
    → acc < 2 ^ (7 * rounds)
    → b * 2 ^ (7 * rounds) < 2 ^ 64
    → Reads (read_len_loop left (suc rounds) (acc + b * 2 ^ (7 * rounds))) w a
    → Reads (read_len_loop (suc left) rounds acc) ((b + 128) ∷ w) a
unfolding read_len_loop
digit-Reads left rounds acc b w a hr hb ha hs h =
    bind-Reads read_opcode (λ byte. _) ((b + 128) ∷ []) w (b + 128) a (read_opcode-Reads (b + 128))
      (rw (in_range, more, placed rounds acc b ha hs (b + 128) (omega arith)) h)
  where
    in_range : leb 64 (7 * rounds) ≡ false
    in_range = ground (arith, hr)

    more : ((b + 128) % 256 / 128 == 0) ≡ false
    more = ground (arith, hb)

pub last-Reads :
    (left rounds acc b : ℕ)
    → 7 * rounds < 64
    → b < 128
    → acc < 2 ^ (7 * rounds)
    → b * 2 ^ (7 * rounds) < 2 ^ 64
    → Reads (read_len_loop (suc left) rounds acc) (b ∷ []) (acc + b * 2 ^ (7 * rounds))
unfolding read_len_loop
last-Reads left rounds acc b hr hb ha hs =
    bind-Reads read_opcode (λ byte. _) (b ∷ []) [] b (acc + b * 2 ^ (7 * rounds))
      (read_opcode-Reads b)
      (rw (in_range, last, placed rounds acc b ha hs b (omega arith))
        (pure-Reads (acc + b * 2 ^ (7 * rounds))))
  where
    in_range : leb 64 (7 * rounds) ≡ false
    in_range = ground (arith, hr)

    last : (b % 256 / 128 == 0) ≡ true
    last = ground (arith, hb)
