-- ===== src/Rdb/Frame.antt =====
-- The header and the footer of a dump: `SaveHeader`, `SaveFooter` of src/core/rdb_serializer.cc
-- against `LoadHeader`, `LoadFooter` of src/core/rdb_loader.cc.
use nano_redis.Prelude.{
  ℕ, suc, ◌^◌, ◌<◌, ◌≤◌, true, not, none, [], ◌∷◌, ◌++◌, Bytes, length, take_prefix, drop_prefix,
  bytes_eq, bytes_eq_refl, length-append, ◌==◌, if◌then◌else◌, ◌≡◌, refl, ap, ◌∙◌, arith,
}
use mathlib.Core.Path.{subst}
use nano_redis.Rdb.{nrdb_magic, opcode_eof, le_bytes, le_value, build_crc32, invalid_argument}
use nano_redis.Rdb.Checksum.{build_crc32-fits}
use nano_redis.Rdb.Numbers.{le_value-le_bytes, length-le_bytes}
use nano_redis.Rdb.Save
use nano_redis.Rdb.Save.{Saver, Save, ◌>>◌, write_raw, save_header, save_footer}
use nano_redis.Rdb.Load
use nano_redis.Rdb.Load.{
  Loader, Load, Result, ok, err, Containers, Entry, Cursor, read_raw, read_opcode, load_header,
  load_footer, load_loop,
}
use nano_redis.Rdb.Pieces.{
  before, wrote, wrote-append, Writes, Reads, write_raw-Writes, then-Writes, read_raw-Reads,
  read_opcode-Reads,
}
use nano_redis.Rdb.Entries.{Steps, Steps-trans, Reads→Steps}

le_bytes-Reads : (n v : ℕ) → Reads (read_raw n) (le_bytes n v) (le_bytes n v)
le_bytes-Reads n v =
    subst (λ (k : ℕ). Reads (read_raw k) (le_bytes n v) (le_bytes n v)) (length-le_bytes n v)
      (read_raw-Reads (le_bytes n v))

abbrev pub header_bytes : ℕ → ℕ → ℕ → Bytes
header_bytes shard shards ts =
    nrdb_magic ++ (le_bytes 4 shard ++ (le_bytes 4 shards ++ (le_bytes 8 ts ++ le_bytes 2 16)))

-- The checksum starts anew at the header.
pub save_header-wrote :
    (ts : ℕ) (s : Saver)
    → s.has_sink ≡ true
    → length (header_bytes s.shard_id s.num_shards ts) ≤ s.room
    → save_header ts s
      ≡ (none, wrote (header_bytes s.shard_id s.num_shards ts) (record s { checksum = 0 }))
unfolding save_header
save_header-wrote ts s h r =
    raw_then nrdb_magic _ _
      (raw_then (le_bytes 4 s.shard_id) _ _ (
        raw_then (le_bytes 4 s.num_shards) _ _ (
          raw_then (le_bytes 8 ts) (write_raw (le_bytes 2 16)) (le_bytes 2 16)
            (write_raw-Writes (le_bytes 2 16)))))
      (record s { checksum = 0 }) h r
  where
    raw_then : (v : Bytes) (k : Save) (w : Bytes) → Writes k w → Writes (write_raw v >> k) (v ++ w)
    raw_then v k w p = then-Writes (write_raw v) k v w (write_raw-Writes v) p

-- A number of fixed width, and what is done with its bytes.
number-Steps :
    {A : Type 0} (n v : ℕ) (f : Bytes → Load A) (w : Bytes) (k : Load A)
    → Steps (f (le_bytes n v)) w k
    → Steps (Load.◌>>=◌ (read_raw n) f) (le_bytes n v ++ w) k
number-Steps n v f w k p =
    Steps-trans (Load.◌>>=◌ (read_raw n) f) (f (le_bytes n v)) k (le_bytes n v) w
      (Reads→Steps (read_raw n) f (le_bytes n v) (le_bytes n v) (le_bytes-Reads n v)) p

checked : Bytes → Load (Unit {0})
checked shard l =
    if le_value shard == l.expected_shard_id then (ok tt, l) else (err invalid_argument, l)

numbers-Steps :
    (shard shards ts : ℕ)
    → Steps
        (Load.◌>>=◌ (read_raw 4) (λ s.
          Load.◌>>=◌
            (read_raw 4)
            (λ n. Load.◌>>=◌ (read_raw 8) (λ t. Load.◌>>=◌ (read_raw 2) (λ dbs. checked s)))))
        (le_bytes 4 shard ++ (le_bytes 4 shards ++ (le_bytes 8 ts ++ le_bytes 2 16)))
        (checked (le_bytes 4 shard))
numbers-Steps shard shards ts =
    let sh = le_bytes 4 shard in
    number-Steps 4 shard
      (λ s.
        Load.◌>>=◌ (read_raw 4)
          (λ n. Load.◌>>=◌ (read_raw 8) (λ t. Load.◌>>=◌ (read_raw 2) (λ dbs. checked s))))
      _ (checked sh)
      (number-Steps 4 shards
        (λ n. Load.◌>>=◌ (read_raw 8) (λ t. Load.◌>>=◌ (read_raw 2) (λ dbs. checked sh))) _
        (checked sh)
        (number-Steps 8 ts (λ t. Load.◌>>=◌ (read_raw 2) (λ dbs. checked sh)) (le_bytes 2 16)
          (checked sh)
          (Reads→Steps (read_raw 2) (λ dbs. checked sh) (le_bytes 2 16) (le_bytes 2 16)
            (le_bytes-Reads 2 16))))

-- The loader that expects the shard that was saved takes the header.
pub load_header-Reads :
    (shard c shards ts : ℕ) (rest : Bytes)
    → shard < 2 ^ 32
    → load_header (before shard c (header_bytes shard shards ts ++ rest))
      ≡ (ok tt, before shard (build_crc32 c (header_bytes shard shards ts)) rest)
unfolding load_header checked
load_header-Reads shard c shards ts rest h =
    let numbers = le_bytes 4 shard ++ (le_bytes 4 shards ++ (le_bytes 8 ts ++ le_bytes 2 16)) in
    Steps-trans load_header (magic_read nrdb_magic) (checked (le_bytes 4 shard)) nrdb_magic numbers
      (Reads→Steps (read_raw 8) magic_read nrdb_magic nrdb_magic (read_raw-Reads nrdb_magic))
      (rw (bytes_eq_refl nrdb_magic) (numbers-Steps shard shards ts)) shard c rest
    ∙ rw (same) refl
  where
    magic_read : Bytes → Load (Unit {0})
    magic_read magic =
        if not (bytes_eq magic nrdb_magic)
        then Load.failed invalid_argument
        else Load.◌>>=◌ (read_raw 4) (λ s.
          Load.◌>>=◌ (read_raw 4)
            (λ n. Load.◌>>=◌ (read_raw 8) (λ t. Load.◌>>=◌ (read_raw 2) (λ dbs. checked s))))

    same : (le_value (le_bytes 4 shard) == shard) ≡ true
    same = ground (arith, le_value-le_bytes 4 shard (omega (arith, h)))

abbrev pub footer_bytes : ℕ → Bytes
footer_bytes c = opcode_eof ∷ le_bytes 4 (build_crc32 c (opcode_eof ∷ []))

pub save_footer-wrote :
    (s : Saver)
    → s.has_sink ≡ true
    → 5 ≤ s.room
    → save_footer s ≡ (none, wrote (footer_bytes s.checksum) s)
unfolding save_footer
save_footer-wrote s h r =
    ap (λ o. Save.continue o.0 (λ t. write_raw (le_bytes 4 t.checksum) t) o.1)
      (write_raw-Writes (opcode_eof ∷ []) s h (omega (arith, r)))
    ∙ write_raw-Writes crc (wrote (opcode_eof ∷ []) s) h
        (omega (arith, r, length-le_bytes 4 (build_crc32 s.checksum (opcode_eof ∷ []))))
    ∙ ap (λ (t : Saver). (none, t)) (wrote-append (opcode_eof ∷ []) crc s)
  where
    crc : Bytes
    crc = le_bytes 4 (build_crc32 s.checksum (opcode_eof ∷ []))

source_gives :
    (w rest : Bytes) (shard crc : ℕ)
    → Load.read_source (length w) (before shard crc (w ++ rest)) ≡ (ok w, before shard crc rest)
source_gives w rest shard crc =
    ground (arith, take_prefix w rest, drop_prefix w rest, length-append w rest)

load_footer-accepts :
    (shard crc : ℕ) (rest : Bytes)
    → crc < 2 ^ 32
    → load_footer (before shard crc (le_bytes 4 crc ++ rest)) ≡ (ok tt, before shard crc rest)
unfolding load_footer
load_footer-accepts shard crc rest h =
    let stored = le_bytes 4 crc in
    ap
      (λ o.
        Load.continue o.0
          (λ b. if le_value b == crc then Load.pure tt else Load.failed invalid_argument) o.1)
      (subst
        (λ (n : ℕ).
          Load.read_source n (before shard crc (stored ++ rest))
          ≡ (ok stored, before shard crc rest))
        (length-le_bytes 4 crc) (source_gives stored rest shard crc))
    ∙ rw (same) refl
  where
    same : (le_value (le_bytes 4 crc) == crc) ≡ true
    same = ground (arith, le_value-le_bytes 4 crc (omega (arith, h)))

module _ (c : Containers) {S : Type 0} (handler : Entry → S → Result S) where
  -- A footer with the checksum of all before it ends the load.
  pub footer-loads :
      (fuel shard crc : ℕ) (cur : Cursor) (s : S) (rest : Bytes)
      → crc < 2 ^ 32
      → (load_loop c handler (suc fuel) cur s (before shard crc (footer_bytes crc ++ rest))).0
        ≡ ok s
  unfolding load_loop
  footer-loads fuel shard crc cur s rest h =
      let crc' = build_crc32 crc (opcode_eof ∷ []) in
      let next : Cursor → S → Load S = (λ cur' s'. load_loop c handler fuel cur' s') in
      ap (λ o. (Load.continue o.0 (Load.turn c handler next cur s) o.1).0)
        (read_opcode-Reads opcode_eof shard crc (le_bytes 4 crc' ++ rest))
      ∙ ap (λ o. (Load.continue o.0 (λ done. Load.pure s) o.1).0)
          (load_footer-accepts shard crc' rest (build_crc32-fits crc (opcode_eof ∷ []) h))
